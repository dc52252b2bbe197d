-- ===== src/Container/RingBuffer/Tests.antt =====
-- The theorems on the ring at a ring of three bytes.
use firedrake.Common.{◌≡◌, refl, inr, some, [], ◌∷◌, arith}
use firedrake.Container.RingBuffer.{
  RingBuffer, write, read, create, put, load, store, cycle, advance,
}
use firedrake.Container.RingBuffer.Inv.{IsValid}
use firedrake.Container.RingBuffer.Refine.{
  contents, Created, contents-write, contents-read, create_lem,
}

-- holds 7 and 8; the next byte goes to the second place
abbrev ring : RingBuffer
ring = record {
  storage = 8 ∷ 9 ∷ 7 ∷ [];
  buffer = 4096;
  buffer_limit = 4099;
  begin = 4098;
  end = 4097;
  size = 3;
  count = 2;
}

ring-IsValid : IsValid ring
ring-IsValid = record {
  storage_size = refl;
  limit = refl;
  no_wrap = omega arith;
  not_null = omega arith;
  size_pos = omega arith;
  begin_low = omega arith;
  begin_high = omega arith;
  end_low = omega arith;
  end_high = omega arith;
  count_le = omega arith;
  behind = inr refl;
}

contents-write_example :
    IsValid (write ring (1 ∷ 2 ∷ [])) × (contents (write ring (1 ∷ 2 ∷ [])) ≡ 8 ∷ 1 ∷ 2 ∷ [])
contents-write_example = contents-write (1 ∷ 2 ∷ []) ring-IsValid

contents-read_example :
    ((read ring 1).0 ≡ 7 ∷ []) × (contents (read ring 1).1 ≡ 8 ∷ []) × IsValid (read ring 1).1
contents-read_example = contents-read 1 ring-IsValid

create_lem_example :
    Created (some 64) (some (4096, 0 ∷ 0 ∷ [])) (create (some 64) (some (4096, 0 ∷ 0 ∷ [])) 2)
create_lem_example =
    create_lem (some 64) (some (4096, 0 ∷ 0 ∷ [])) 2 (omega arith) (λ b bs e. ground arith)

overwrites : (read (write ring (1 ∷ 2 ∷ 3 ∷ 4 ∷ [])) 9).0 ≡ 2 ∷ 3 ∷ 4 ∷ []
unfolding write read put load store cycle advance
overwrites = refl

-- ===== src/Container/RingBuffer.antt =====
-- sys/container/ringbuffer.c: a byte ring that overwrites its oldest bytes. The pointers into the
-- storage are numbers, and the storage itself is the list of its bytes.
pub mod Window
pub mod Inv
pub mod Refine
mod Tests
use firedrake.Common.{
  ℕ, zero, suc, ◌-◌, Option, none, some, List, [], ◌∷◌, ltb, leb, ◌==◌, if◌then◌else◌, get_or, set,
  add32, sub32, minimum,
}

-- `ringbuffer_t`. `storage` is the memory from `buffer` up to `buffer_limit`.
pub record RingBuffer : Type 0 where
  pub storage : List ℕ
  pub buffer : ℕ
  pub buffer_limit : ℕ
  pub begin : ℕ
  pub end : ℕ
  pub size : ℕ
  pub count : ℕ

-- `ringbuffer_cycle`
pub cycle : ℕ → ℕ → ℕ → ℕ
cycle val lower upper = if leb val lower then upper else if leb upper val then lower else val

-- `*p` and `*p = v` through a pointer into the storage
pub load : RingBuffer → ℕ → ℕ
load r p = get_or r.storage (p - r.buffer) 0

pub store : RingBuffer → ℕ → ℕ → List ℕ
store r p v = set r.storage (p - r.buffer) v

-- the ring that `ringbuffer_create` sets up over the memory that `halloc` returned
pub fresh : ℕ → List ℕ → ℕ → RingBuffer
fresh buffer storage size = record {
  storage = storage;
  buffer = buffer;
  buffer_limit = add32 buffer size;
  begin = buffer;
  end = buffer;
  size = size;
  count = 0;
}

-- `ringbuffer_create`: what `halloc` returned for the struct, and for the bytes with what they
-- hold. Returned are the ring and the pointers that were given back to `hfree`.
pub create : Option ℕ → Option (ℕ × List ℕ) → ℕ → Option RingBuffer × List ℕ
create (some ring) (some (buffer, bytes)) size = (some (fresh buffer bytes size), [])
create (some ring) none size = (none, ring ∷ [])
create none (some (buffer, bytes)) size = (none, buffer ∷ [])
create none none size = (none, [])

-- one round of the loop of `ringbuffer_write`
pub put : RingBuffer → ℕ → RingBuffer
put r v =
    let end' = cycle (add32 r.end 1) r.buffer r.buffer_limit in
    let count' = minimum (add32 r.count 1) r.size in
    record r {
      storage = store r r.end v;
      end = end';
      count = count';
      begin = if count' == r.size then end' else r.begin;
    }

-- `ringbuffer_write`
pub write : RingBuffer → List ℕ → RingBuffer
write r [] = r
write r (v ∷ vs) = write (put r v) vs

-- the state after one round of the loop of `ringbuffer_read`
pub advance : RingBuffer → RingBuffer
advance r = record r {
  begin = cycle (add32 r.begin 1) r.buffer r.buffer_limit;
  count = sub32 r.count 1;
}

-- `ringbuffer_read`: the bytes stored through `buffer`, in order; their number is what is returned.
pub read : RingBuffer → ℕ → List ℕ × RingBuffer
read r zero = ([], r)
read r (suc n) =
    let rest = read (advance r) n in
    if ltb 0 r.count then (load r r.begin ∷ rest.0, rest.1) else ([], r)

-- `ringbuffer_length`
pub ring_length : RingBuffer → ℕ
ring_length r = r.count

-- `ringbuffer_destroy` of the ring at address `ring`: the pointers that it frees
pub destroy : (ring : ℕ) → RingBuffer → List ℕ
destroy ring r = r.buffer ∷ ring ∷ []

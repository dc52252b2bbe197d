-- ===== src/Container/RingBuffer/Inv.antt =====
-- The representation invariant of `ringbuffer_t`.
use firedrake.Common.{
  ℕ, ◌+◌, ◌-◌, ◌≤◌, ◌<◌, ◌≡◌, ◌⊎◌, inl, inr, arith, length, length-set, word, add32,
}
use firedrake.Container.RingBuffer.{RingBuffer, cycle, store, put, advance}
use firedrake.Container.RingBuffer.Window.{next, Behind}

pub record IsValid (r : RingBuffer) : Type 0 where
  pub storage_size : length r.storage ≡ r.size
  pub limit : r.buffer_limit ≡ r.buffer + r.size
  pub no_wrap : r.buffer + r.size < word
  pub not_null : 0 < r.buffer
  pub size_pos : 0 < r.size
  pub begin_low : r.buffer ≤ r.begin
  pub begin_high : r.begin < r.buffer_limit
  pub end_low : r.buffer ≤ r.end
  pub end_high : r.end < r.buffer_limit
  pub count_le : r.count ≤ r.size
  pub behind : Behind r.size r.begin r.count r.end

-- From a pointer into the storage `cycle` moves to the next one.
pub cycle_next :
    (r : RingBuffer) (p : ℕ)
    → IsValid r
    → r.buffer ≤ p
    → p < r.buffer_limit
    → (cycle (add32 p 1) r.buffer r.buffer_limit ≡ r.buffer + next r.size (p - r.buffer))
      × (r.buffer ≤ cycle (add32 p 1) r.buffer r.buffer_limit)
      × (cycle (add32 p 1) r.buffer r.buffer_limit < r.buffer_limit)
      × Behind r.size p 1 (cycle (add32 p 1) r.buffer r.buffer_limit)
unfolding cycle
cycle_next r p v lo hi = ground arith

-- A byte is put into a ring that has room for it, or takes the place of the oldest.
pub put_cases :
    (r : RingBuffer) (x : ℕ)
    → IsValid r
    → ((r.count < r.size) × ((put r x).count ≡ r.count + 1) × ((put r x).begin ≡ r.begin))
      ⊎ ((r.count ≡ r.size)
          × ((put r x).count ≡ r.size)
          × ((put r x).begin ≡ r.buffer + next r.size (r.begin - r.buffer))
          × (r.end ≡ r.begin)
          × ((put r x).begin ≡ (put r x).end))
unfolding put
put_cases r x v = ground (arith, cycle_next r r.end v)

put-Behind :
    (r : RingBuffer) (x : ℕ)
    → IsValid r
    → Behind r.size (put r x).begin (put r x).count (put r x).end
unfolding put
put-Behind r x v = elim (put_cases r x v) [
  | inl h ↦ ground (arith, cycle_next r r.end v)
  | inr h ↦ ground arith
]

pub put-IsValid : {r : RingBuffer} (x : ℕ) → IsValid r → IsValid (put r x)
unfolding put store
put-IsValid {r} x v = record {
  storage_size = ground (arith, length-set r.storage (r.end - r.buffer) x);
  limit = v.limit;
  no_wrap = v.no_wrap;
  not_null = v.not_null;
  size_pos = v.size_pos;
  begin_low = ground (arith, cycle_next r r.end v);
  begin_high = ground (arith, cycle_next r r.end v);
  end_low = ground (arith, cycle_next r r.end v);
  end_high = ground (arith, cycle_next r r.end v);
  count_le = ground (arith, put_cases r x v);
  behind = put-Behind r x v;
}

pub advance-IsValid : {r : RingBuffer} → IsValid r → 0 < r.count → IsValid (advance r)
unfolding advance
advance-IsValid {r} v h = ground (arith, cycle_next r r.begin v)

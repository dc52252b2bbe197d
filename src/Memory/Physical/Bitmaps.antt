-- ===== src/Memory/Physical/Bitmaps.antt =====
-- What marking does to the bitmap of the physical pages. A page is named by its index.
use firedrake.Common.{
  ℕ, zero, suc, ◌+◌, ◌*◌, ◌/◌, ◌%◌, ◌^◌, ◌<◌, ◌≡◌, Bool, true, false, ◌&&◌, arith, ltb, leb, ◌==◌,
  if◌then◌else◌, add32,
}
use firedrake.Common.Bits.{test_bit, test_bit-set_bit, test_bit-clear_bit}
use firedrake.Memory.Physical.{
  Bitmap, page_size, update, mark_used, mark_free, mark_used_range, mark_free_range,
}

-- the pages of a 32-bit address space
abbrev pub page_count : ℕ
page_count = 2 ^ 20

abbrev pub is_free : Bitmap → ℕ → Bool
is_free h p = test_bit (h (p / 32)) (p % 32)

-- `p` is one of the `n` pages from `b` on.
abbrev pub in_range : ℕ → ℕ → ℕ → Bool
in_range b n p = leb b p && ltb p (b + n)

is_free-mark_used :
    (h : Bitmap) (a p : ℕ)
    → is_free (mark_used h a) p ≡ (if a / page_size == p then false else is_free h p)
unfolding mark_used update
is_free-mark_used h a p =
    let i = a / page_size in ground (arith, test_bit-clear_bit (h (i / 32)) (i % 32) (p % 32))

is_free-mark_free :
    (h : Bitmap) (a p : ℕ)
    → is_free (mark_free h a) p ≡ (if a / page_size == p then true else is_free h p)
unfolding mark_free update
is_free-mark_free h a p =
    let i = a / page_size in ground (arith, test_bit-set_bit (h (i / 32)) (i % 32) (p % 32))

-- Of the pages from `b` on, the loop of `pm_alloc` marks exactly the next `n` as used.
pub is_free-mark_used_range :
    (h : Bitmap) (b n p : ℕ)
    → b + n < page_count
    → is_free (mark_used_range h (b * page_size) n) p
      ≡ (if in_range b n p then false else is_free h p)
unfolding mark_used_range
is_free-mark_used_range h b zero p lt = ground arith
is_free-mark_used_range h b (suc n) p lt =
    let next : add32 (b * page_size) page_size ≡ (b + 1) * page_size = omega arith in
    rw next (
      ground (
        arith,
        is_free-mark_used_range (mark_used h (b * page_size)) (b + 1) n p,
        is_free-mark_used h (b * page_size) p,
      ))

pub is_free-mark_free_range :
    (h : Bitmap) (b n p : ℕ)
    → b + n < page_count
    → is_free (mark_free_range h (b * page_size) n) p
      ≡ (if in_range b n p then true else is_free h p)
unfolding mark_free_range
is_free-mark_free_range h b zero p lt = ground arith
is_free-mark_free_range h b (suc n) p lt =
    let next : add32 (b * page_size) page_size ≡ (b + 1) * page_size = omega arith in
    rw next (
      ground (
        arith,
        is_free-mark_free_range (mark_free h (b * page_size)) (b + 1) n p,
        is_free-mark_free h (b * page_size) p,
      ))

-- ===== src/Memory/Zone/Use.antt =====
-- `__heap_useAllocation` keeps the zone valid, and gives a block of its own.
use firedrake.Common.{
  ℕ, ◌^◌, ◌<◌, ◌≤◌, ◌≡◌, ◌≢◌, refl, sym, ap, ◌∙◌, inl, inr, Bool, true, false, some, arith, ltb,
  ltb→lt, Bool-cases, Option-cases, ℕ_discrete,
}
use firedrake.Memory.Zone.{
  Zone, Allocation, used, is_used, is_unused, set_entry, use_whole, use_split, use_allocation,
  get_unused, required_size, used_pointer,
}
use firedrake.Memory.Zone.Table.{find-some, set_entry_self, set_entry_ne, count-set_entry, count_le}
use firedrake.Memory.Zone.Retag.{tagged, retag-Blocks, retag-AllApart}
use firedrake.Memory.Zone.Split.{use_split-IsValid, split_front, split_other, use_split_geometry}
use firedrake.Memory.Zone.Inv.{live, spare, start, IsValid, address-start}

spare-live : (a : Allocation) → spare a ≡ true → live a ≡ true
spare-live a sp = ground arith

use_whole-IsValid :
    (z : Zone) (i : ℕ)
    → IsValid z
    → i < z.slots
    → spare (z.table i) ≡ true
    → IsValid (use_whole z i)
unfolding use_whole
use_whole-IsValid z i v lt sp =
    let lv = spare-live (z.table i) sp in
    let lives = count-set_entry live z.table i (tagged used (z.table i)) z.slots lt in
    let spares = count-set_entry spare z.table i (tagged used (z.table i)) z.slots lt in
    record {
      blocks = retag-Blocks z z.table i used lv v.blocks;
      apart = retag-AllApart z z.table i used lv v.apart;
      end_word = v.end_word;
      tiny_span = v.tiny_span;
      slots_small = v.slots_small;
      live_count = ground (arith, lives, lv, v.live_count);
      free_count =
          ground (arith, spares, sp, v.free_count, count_le spare z.table z.slots, v.slots_small);
    }

-- What a use of entry `i` for `size` bytes has to give: a valid zone in which the entry is used, its
-- block begins where the pointer says and has the bytes, and the used entries are the old ones and it.
pub record Given (z : Zone) (i size : ℕ) (z' : Zone) : Type 0 where
  pub valid : IsValid z'
  pub same_slots : z'.slots ≡ z.slots
  pub same_begin : z'.begin ≡ z.begin
  pub same_end : z'.end ≡ z.end
  pub same_pages : z'.pages ≡ z.pages
  pub type_same : z'.type ≡ z.type
  pub now_used : is_used (z'.table i).kind ≡ true
  pub pointer : start z' (z'.table i) ≡ used_pointer z i
  pub room : size ≤ (z'.table i).size
  pub kept : (k : ℕ) → is_used (z.table k).kind ≡ true → z'.table k ≡ z.table k
  pub no_other : (k : ℕ) → k ≢ i → is_used (z'.table k).kind ≡ true → z'.table k ≡ z.table k

spare-not-used : (a : Allocation) → spare a ≡ true → is_used a.kind ≡ false
spare-not-used a sp = ground arith

pub required-ge :
    (aligned : Bool) (size : ℕ)
    → size < 2 ^ 31
    → (size ≤ required_size aligned size) × (0 < required_size aligned size)
unfolding required_size
required-ge aligned size small = ground arith

-- The spare slot that the search finds was unused before, too.
unused_entry :
    (z : Zone) (i j : ℕ)
    → get_unused (use_whole z i) ≡ some j
    → (j < z.slots) × (is_unused (z.table j).kind ≡ true)
unfolding get_unused use_whole
unused_entry z i j found =
    let t = set_entry z.table i (tagged used (z.table i)) in
    let (_, high, un) = find-some (λ a. is_unused a.kind) t z.slots 0 j found in
    (
      omega arith,
      elim (ℕ_discrete j i) [
        | yes e ↦
            let here : t j ≡ tagged used (z.table i) =
              ap t e ∙ set_entry_self z.table i (tagged used (z.table i)) in
            let kind = ap (λ (a : Allocation). a.kind) here in ground arith
        | no ne ↦
            let there = set_entry_ne z.table i (tagged used (z.table i)) j ne in
            ap (λ (a : Allocation). is_unused a.kind) (sym there) ∙ un
      ],
    )

module _ (z : Zone) (i size : ℕ) (v : IsValid z) (hi : i < z.slots)
    (sp : spare (z.table i) ≡ true) where
  pointer-start : start z (z.table i) ≡ used_pointer z i
  unfolding used_pointer
  pointer-start =
      sym (address-start z (z.table i) v.end_word (v.blocks i hi (spare-live (z.table i) sp)))

  not_this : (k : ℕ) → is_used (z.table k).kind ≡ true → k ≢ i
  not_this k u e =
      let same = ap (λ m. is_used (z.table m).kind) e in
      let not_used = spare-not-used (z.table i) sp in cc

  use_whole-Given : size ≤ (z.table i).size → Given z i size (use_whole z i)
  unfolding use_whole
  use_whole-Given room =
      let here = set_entry_self z.table i (tagged used (z.table i)) in
      let there = λ (k : ℕ) (ne : k ≢ i). set_entry_ne z.table i (tagged used (z.table i)) k ne in
      record {
        valid = use_whole-IsValid z i v hi sp;
        same_slots = refl;
        same_begin = refl;
        same_end = refl;
        same_pages = refl;
        type_same = refl;
        now_used = rw here refl;
        pointer = rw here pointer-start;
        room = rw here room;
        kept = λ k u. there k (not_this k u);
        no_other = λ k ne u. there k ne;
      }

  use_split-Given :
      (j required : ℕ)
      → j < z.slots
      → is_unused (z.table j).kind ≡ true
      → required < (z.table i).size
      → size ≤ required
      → 0 < required
      → Given z i size (use_split z i j required)
  use_split-Given j required hj un fits room pos =
      let (slots, begin, end, type, pages) =
        use_split_geometry z i j required v hi hj sp un fits pos in
      let here = split_front z i j required v hi hj sp un fits pos in
      let there = split_other z i j required v hi hj sp un fits pos in
      record {
        valid = use_split-IsValid z i j required v hi hj sp un fits pos;
        same_slots = slots;
        same_begin = begin;
        same_end = end;
        same_pages = pages;
        type_same = type;
        now_used = rw here refl;
        pointer = rw (here, type, begin) pointer-start;
        room = rw here room;
        kept = λ k u. there k (not_this k u) (inr u);
        no_other = λ k ne u. there k ne (inl u);
      }

  -- In a valid zone, with entry `i` free and of `size` bytes at least, `size` below 2 ^ 31,
  -- `__heap_useAllocation` leaves a valid zone in which the entry is used, its block begins at the
  -- pointer returned and has `size` bytes, and no other used entry comes, goes or changes.
  pub use_allocation-Given :
      (aligned : Bool)
      → size < 2 ^ 31
      → size ≤ (z.table i).size
      → Given z i size (use_allocation aligned z i size)
  unfolding use_allocation
  use_allocation-Given aligned small fits =
      let required = required_size aligned size in
      let enough : (size ≤ required) × (0 < required) = required-ge aligned size small in
      elim (Bool-cases (ltb required (z.table i).size)) [
        | inl more ↦ rw more (elim (Option-cases (get_unused (use_whole z i))) [
          | inl none_left ↦ rw none_left (use_whole-Given fits)
          | inr (j, found) ↦
              let (hj, un) = unused_entry z i j found in
              rw found (use_split-Given j required hj un (ltb→lt _ _ more) enough.0 (enough.1))
        ])
        | inr exact ↦ rw exact (use_whole-Given fits)
      ]

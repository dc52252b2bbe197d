-- ===== src/Memory/Virtual/Mapping/Within.antt =====
-- `vm_allocLimit` on the kernel's directory: the pages that it finds and maps.
use firedrake.Common.{
  bit_or, ℕ, ◌+◌, ◌-◌, ◌*◌, ◌/◌, ◌%◌, ◌^◌, ◌<◌, ◌≤◌, ◌≡◌, ◌≢◌, refl, sym, ap, ◌∙◌, ◌⊎◌, inl, inr,
  Bool, true, false, arith, none, some, not, ◌==◌, if◌then◌else◌,
}
use firedrake.Memory.Physical.{page_size}
use firedrake.Memory.Virtual.{
  Machine, kernel_directory, is_present, table_at, limits_hold, upper_bound,
}
use firedrake.Memory.Virtual.Scan.{is_unmapped}
use firedrake.Memory.Virtual.Search.{Unmapped, find_free_pages_lem}
use firedrake.Memory.Virtual.Mapping.{
  vm_alloc_limit, alloc_within, map_found, find_kernel, map_page_range,
}
use firedrake.Memory.Virtual.Mapping.Tables.{entry, IsSound, HasTable}
use firedrake.Memory.Virtual.Mapping.Ranges.{in_pages, MappedRange, map_page_range-MappedRange}

-- the kernel's directory maps the page `q`
abbrev pub is_mapped : Machine → ℕ → Bool
is_mapped m q = is_present (entry m q)

is_unmapped-eq :
    (m : Machine) (q : ℕ) → is_unmapped (table_at m kernel_directory) q ≡ not (is_mapped m q)
unfolding table_at
is_unmapped-eq m q = ground arith

-- Sound tables under a free lock, which every unmapped page within the limits has, outside the area
-- of the page tables; and the last page of the address space is mapped.
pub record IsReady (m : Machine) (lower upper : ℕ) : Type 0 where
  pub sound : IsSound m
  pub unlocked : m.locked ≡ false
  pub has_tables :
      (q : ℕ) → lower ≤ q * page_size → q * page_size < upper → is_mapped m q ≡ false → HasTable m q
  pub last_mapped : is_mapped m 0xFFFFF ≡ true

-- The `pages` pages from the address `vaddress` on were not mapped; now their entries are the addresses
-- of the pages from `paddress` on, each joined with the flags. No other entry changes.
pub record Allocated (m : Machine) (lower upper paddress pages flags vaddress : ℕ) (m' : Machine)
    : Type 0 where
  pub first : ℕ
  pub is_first : vaddress ≡ first * page_size
  pub positive : 0 < first
  pub above : lower ≤ vaddress
  pub below : vaddress + pages * page_size ≤ upper
  pub were_unmapped : (q : ℕ) → in_pages first pages q ≡ true → is_mapped m q ≡ false
  pub sound : IsSound m'
  pub mapped : MappedRange m first pages (λ q. bit_or (paddress + (q - first) * page_size) flags) m'

pub limits_hold_upper :
    (pages lower upper : ℕ)
    → limits_hold pages lower upper ≡ true
    → (upper ≤ upper_bound) × (4096 ≤ lower) × (0 < pages)
unfolding limits_hold
limits_hold_upper pages lower upper h = ground arith

map_found_lem :
    (m m' : Machine) (paddress vaddress pages flags : ℕ)
    → map_page_range m paddress vaddress pages flags ≡ some m'
    → map_found m paddress vaddress pages flags ≡ some (vaddress, m')
unfolding map_found
map_found_lem m m' paddress vaddress pages flags e = rw e

-- The outcome of a search is mapped.
alloc_within_lem :
    (m : Machine) (paddress pages lower upper flags address : ℕ)
    → IsReady m lower upper
    → limits_hold pages lower upper ≡ true
    → pages < 2 ^ 20
    → 0 < paddress
    → paddress % page_size ≡ 0
    → paddress + pages * page_size < 2 ^ 32
    → find_kernel m pages lower upper ≡ some address
    → (address ≡ 0) ⊎ Unmapped (table_at m kernel_directory) lower upper pages address
    → (vaddress : ℕ) × (m' : Machine) × (alloc_within m paddress pages lower upper flags
        ≡ some (vaddress, m'))
      × (((vaddress ≡ 0) × (m' ≡ m)) ⊎ Allocated m lower upper paddress pages flags vaddress m')
unfolding alloc_within
alloc_within_lem m paddress pages lower upper flags address ready holds small ppos aligned fits
      found (inl e) =
    let nothing : (address == 0) ≡ true = ground arith in
    (0, m, rw (found, nothing), inl (refl, refl))
alloc_within_lem m paddress pages lower upper flags address ready holds small ppos aligned fits
      found (inr u) =
    let (up, low, pos) = limits_hold_upper pages lower upper holds in
    let first = u.first in
    let at = u.is_first in
    let above = u.above in
    let was = λ (q : ℕ) (a : first ≤ q) (b : q < first + pages).
      let e : not (is_mapped m q) ≡ true = sym (is_unmapped-eq m q) ∙ u.unmapped q a b in
      let e' : is_mapped m q ≡ false = ground arith in e' in
    let within : first + pages < 2 ^ 20 = elim u.below [
      | inl le ↦ omega arith
      | inr wraps ↦ absurd (
          let l : is_mapped m 0xFFFFF ≡ false = was 0xFFFFF (omega arith) (omega arith) in
          let l' = ready.last_mapped in cc)
    ] in
    let below : address + pages * page_size ≤ upper = elim u.below [
      | inl le ↦ le
      | inr wraps ↦ absurd (omega arith)
    ] in
    let (m', done, sound, mapped) =
      map_page_range-MappedRange m first paddress pages flags ready.sound (omega arith) within ppos
        aligned fits (λ q a b. ready.has_tables q (omega arith) (omega arith) (was q a b)) in
    let something : (address == 0) ≡ false = ground arith in
    (
      address,
      m',
      rw (found, something) (map_found_lem m m' paddress address pages flags (rw at done)),
      inr (record {
        first = first;
        is_first = at;
        positive = omega arith;
        above = above;
        below = below;
        were_unmapped = λ q i. was q (ground arith) (ground arith);
        sound = sound;
        mapped = mapped;
      }),
    )

-- the same call with any flags
pub vm_alloc_limit-Allocated :
    (m : Machine) (paddress pages lower upper flags : ℕ)
    → IsReady m lower upper
    → limits_hold pages lower upper ≡ true
    → pages < 2 ^ 20
    → lower < 2 ^ 32
    → (lower % 2 ^ 22 ≡ 0) ⊎ (table_at m kernel_directory (lower / 2 ^ 22) ≢ none)
    → 0 < paddress
    → paddress % page_size ≡ 0
    → paddress + pages * page_size < 2 ^ 32
    → (vaddress : ℕ) × (m' : Machine) × (vm_alloc_limit m paddress pages lower upper flags
        ≡ some (vaddress, m'))
      × (((vaddress ≡ 0) × (m' ≡ m)) ⊎ Allocated m lower upper paddress pages flags vaddress m')
unfolding vm_alloc_limit find_kernel
vm_alloc_limit-Allocated m paddress pages lower upper flags ready holds small word whole ppos
      aligned fits =
    let (address, found, cases) =
      find_free_pages_lem (table_at m kernel_directory) pages lower upper holds small word whole in
    let (vaddress, m', done, result) =
      alloc_within_lem m paddress pages lower upper flags address ready holds small ppos aligned
        fits found cases in
    (
      vaddress,
      m',
      ap (λ b. if b then none else alloc_within m paddress pages lower upper flags) ready.unlocked
          ∙ done,
      result,
    )

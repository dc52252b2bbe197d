-- ===== src/Memory/Virtual/Mapping/Allocation.antt =====
-- `vm_allocLimit` and `vm_free` on the kernel's directory: who has which pages.
use firedrake.Common.Bits.Sum.{bit_or_sum}
use firedrake.Common.{
  bit_or, ℕ, ◌+◌, ◌-◌, ◌*◌, ◌/◌, ◌%◌, ◌^◌, ◌<◌, ◌≤◌, ◌≡◌, ◌≢◌, refl, sym, ap, ◌∙◌, ◌⊎◌, inl, inr,
  Bool, true, false, arith, none, some, some_inj, if◌then◌else◌,
}
use mathlib.Core.Path.{subst}
use firedrake.Memory.Physical.{page_size}
use firedrake.Memory.Virtual.{
  Machine, table_length, kernel_directory, is_present, frame_of, table_at, limits_hold, upper_bound,
}
use firedrake.Memory.Virtual.Mapping.{vm_alloc_limit, vm_free, unmap_range}
use firedrake.Memory.Virtual.Mapping.Tables.{entry, IsSound, HasTable}
use firedrake.Memory.Virtual.Mapping.Ranges.{
  in_pages, HaveTables, MappedRange, unmap_range-MappedRange,
}
use firedrake.Memory.Virtual.Mapping.Within.{
  is_mapped, IsReady, Allocated, limits_hold_upper, vm_alloc_limit-Allocated,
}

-- The processor finds the `pages` pages from the page `first` on in the pages from `paddress` on, with
-- the flags.
abbrev pub LeadsTo : Machine → (first pages paddress flags : ℕ) → Type 0
LeadsTo m first pages paddress flags =
    (q : ℕ)
    → in_pages first pages q ≡ true
    → (is_mapped m q ≡ true)
      × (frame_of (entry m q) ≡ paddress / page_size + (q - first))
      × (entry m q % page_size ≡ flags)

Allocated-LeadsTo :
    (m m' : Machine) (lower upper paddress pages flags vaddress : ℕ)
    → upper ≤ upper_bound
    → paddress % page_size ≡ 0
    → flags < 2 ^ 12
    → flags % 2 ≡ 1
    → Allocated m lower upper paddress pages flags vaddress m'
    → LeadsTo m' (vaddress / page_size) pages paddress flags
Allocated-LeadsTo m m' lower upper paddress pages flags vaddress top aligned low odd a q inside =
    let at = a.is_first in
    let below = a.below in
    let first : vaddress / page_size ≡ a.first = omega arith in
    let inside' : in_pages a.first pages q ≡ true =
      subst (λ f. in_pages f pages q ≡ true) first inside in
    let small : q < 2 ^ 20 = ground arith in
    let page = paddress + (q - a.first) * page_size in
    let joined : bit_or page flags ≡ page + flags = bit_or_sum 12 page flags (omega arith) low in
    let is : entry m' q ≡ page + flags =
      a.mapped.entries q small
      ∙ ap (λ (b : Bool). if b then bit_or page flags else entry m q) inside'
      ∙ joined in
    rw (is, first) (ground arith, omega arith, omega arith)

-- `vm_allocLimit` on the kernel's directory, ready for the limits, where these pass the assertions, for
-- fewer than 2 ^ 20 pages of physical memory from `paddress` on, where the lower limit is the start of a
-- page table's range or in one that the directory has, and with flags below 2 ^ 12 that have the present
-- bit. It returns. Either it returns 0, and nothing changes; or it returns the address of `pages` pages
-- within the limits that were not mapped and now are, to the pages asked for and with the flags, and no
-- other entry changes.
pub vm_alloc_limit_lem :
    (m : Machine) (paddress pages lower upper flags : ℕ)
    → IsReady m lower upper
    → limits_hold pages lower upper ≡ true
    → pages < 2 ^ 20
    → lower < 2 ^ 32
    → (lower % 2 ^ 22 ≡ 0) ⊎ (table_at m kernel_directory (lower / 2 ^ 22) ≢ none)
    → 0 < paddress
    → paddress % page_size ≡ 0
    → paddress + pages * page_size < 2 ^ 32
    → flags < 2 ^ 12
    → flags % 2 ≡ 1
    → (vaddress : ℕ) × (m' : Machine) × (vm_alloc_limit m paddress pages lower upper flags
        ≡ some (vaddress, m'))
      × (((vaddress ≡ 0) × (m' ≡ m))
          ⊎ (Allocated m lower upper paddress pages flags vaddress m'
              × LeadsTo m' (vaddress / page_size) pages paddress flags))
vm_alloc_limit_lem m paddress pages lower upper flags ready holds small word whole ppos aligned fits
      low odd =
    let (vaddress, m', done, result) =
      vm_alloc_limit-Allocated m paddress pages lower upper flags ready holds small word whole ppos
        aligned fits in
    let top = (limits_hold_upper pages lower upper holds).0 in
    (
      vaddress,
      m',
      done,
      elim result [
        | inl nothing ↦ inl nothing
        | inr a ↦ inr (
          a,
          Allocated-LeadsTo m m' lower upper paddress pages flags vaddress top aligned low odd a,
        )
      ],
    )

-- Every page is mapped in both or in neither, and by the same entry.
abbrev pub SameMapping : Machine → Machine → Type 0
SameMapping m m'' =
    (q : ℕ)
    → q < 2 ^ 20
    → (is_mapped m'' q ≡ is_mapped m q) × (is_mapped m q ≡ true → entry m'' q ≡ entry m q)

restored :
    (m m' m'' : Machine) (q : ℕ) (inside : Bool) (w : ℕ)
    → (inside ≡ true → is_mapped m q ≡ false)
    → entry m' q ≡ (if inside then w else entry m q)
    → entry m'' q ≡ (if inside then 0 else entry m' q)
    → (is_mapped m'' q ≡ is_mapped m q) × (is_mapped m q ≡ true → entry m'' q ≡ entry m q)
restored m m' m'' q true w was there gone =
    let off : is_mapped m q ≡ false = was refl in
    (ap is_present gone ∙ sym off, λ on. absurd (let l = off in cc))
restored m m' m'' q false w was there gone = (ap is_present (gone ∙ there), λ on. gone ∙ there)

-- `vm_free` on the kernel's directory of the `n` pages from the page `p` on, which have page tables, on
-- sound tables under a free lock: it returns, their entries are 0, and no other entry changes.
pub vm_free_lem :
    (m : Machine) (p n : ℕ)
    → IsSound m
    → m.locked ≡ false
    → 0 < p
    → p + n < 2 ^ 20
    → HaveTables p n m
    → (m' : Machine) × (vm_free m (p * page_size) n ≡ some m')
      × IsSound m'
      × MappedRange m p n (λ q. 0) m'
unfolding vm_free
vm_free_lem m p n sound unlocked pos high has =
    let (m', done, sound', c) = unmap_range-MappedRange m p n sound pos high has in
    (m', ap (λ b. if b then none else unmap_range m (p * page_size) n) unlocked ∙ done, sound', c)

free-Allocated :
    (m m' : Machine) (lower upper paddress pages flags vaddress : ℕ)
    → IsReady m lower upper
    → upper ≤ upper_bound
    → Allocated m lower upper paddress pages flags vaddress m'
    → (m'' : Machine) × (vm_free m' vaddress pages ≡ some m'') × SameMapping m m''
free-Allocated m m' lower upper paddress pages flags vaddress ready top a =
    let at = a.is_first in
    let below = a.below in
    let above = a.above in
    let has = λ (q : ℕ) (l : a.first ≤ q) (h : q < a.first + pages).
      let was : is_mapped m q ≡ false = a.were_unmapped q (ground arith) in
      let old = ready.has_tables q (omega arith) (omega arith) was in
      let now : HasTable m' q = (old.0, old.1, rw (a.mapped.directory (q / table_length)) old.2) in
      now in
    let (m'', done, _, freed) =
      vm_free_lem m' a.first pages a.sound (a.mapped.same_locked ∙ ready.unlocked) a.positive
        (omega arith) has in
    (
      m'',
      ap (λ (v : ℕ). vm_free m' v pages) at ∙ done,
      λ q b.
          restored m m' m'' q (in_pages a.first pages q) _ (a.were_unmapped q)
            (a.mapped.entries q b) (freed.entries q b),
    )

-- Giving back with `vm_free` what `vm_allocLimit`, called as in `vm_alloc_limit_lem` but with
-- any flags, returned (not 0) succeeds, and every page is mapped exactly where it was before: with the entry that it had, if it was
-- mapped, and not at all, if not.
pub free-vm_alloc_limit :
    (m m' : Machine) (paddress pages lower upper flags vaddress : ℕ)
    → IsReady m lower upper
    → limits_hold pages lower upper ≡ true
    → pages < 2 ^ 20
    → lower < 2 ^ 32
    → (lower % 2 ^ 22 ≡ 0) ⊎ (table_at m kernel_directory (lower / 2 ^ 22) ≢ none)
    → 0 < paddress
    → paddress % page_size ≡ 0
    → paddress + pages * page_size < 2 ^ 32
    → vm_alloc_limit m paddress pages lower upper flags ≡ some (vaddress, m')
    → vaddress ≢ 0
    → (m'' : Machine) × (vm_free m' vaddress pages ≡ some m'') × SameMapping m m''
free-vm_alloc_limit m m' paddress pages lower upper flags vaddress ready holds small word whole ppos
      aligned fits call some_address =
    let (v, n, done, result) =
      vm_alloc_limit-Allocated m paddress pages lower upper flags ready holds small word whole ppos
        aligned fits in
    let same : (v, n) ≡ (vaddress, m') = some_inj (sym done ∙ call) in
    elim result [
      | inl (zero_address, _) ↦
          absurd (some_address (sym (ap (λ (r : ℕ × Machine). r.0) same) ∙ zero_address))
      | inr a ↦
          free-Allocated m m' lower upper paddress pages flags vaddress ready
            (limits_hold_upper pages lower upper holds).0
            (subst (λ (r : ℕ × Machine). Allocated m lower upper paddress pages flags r.0 r.1) same
              a)
    ]

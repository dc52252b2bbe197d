-- ===== src/Memory/Virtual/Mapping/Ranges.antt =====
-- Mapping and unmapping many pages of the kernel's directory, and `vm_alloc`.
use firedrake.Common.{
  bit_or, ℕ, zero, suc, ◌+◌, ◌-◌, ◌*◌, ◌/◌, ◌%◌, ◌^◌, ◌<◌, ◌≤◌, ◌≡◌, refl, sym, ap, ap₂, ◌∙◌, Bool,
  true, arith, ℕ_discrete, some, ltb, leb, ◌&&◌, if◌then◌else◌, add32,
}
use mathlib.Core.Path.{subst}
use firedrake.Memory.Physical.{page_size}
use firedrake.Memory.Virtual.{Machine, table_length, kernel_directory}
use firedrake.Memory.Virtual.Mapping.{mapping_holds, map_page, map_page_range, unmap_range}
use firedrake.Memory.Virtual.Mapping.Tables.{
  entry, IsSound, HasTable, Mapped, Mapped-IsSound, map_page-Mapped,
}

-- `q` is one of the `n` pages from `p` on.
abbrev pub in_pages : (p n q : ℕ) → Bool
in_pages p n q = leb p q && ltb q (p + n)

-- The entries of the `n` pages from `p` on are those of `w`, and all others as they were.
pub record MappedRange (m : Machine) (p n : ℕ) (w : ℕ → ℕ) (m' : Machine) : Type 0 where
  pub directory : (i : ℕ) → m'.words kernel_directory i ≡ m.words kernel_directory i
  pub entries : (q : ℕ) → q < 2 ^ 20 → entry m' q ≡ (if in_pages p n q then w q else entry m q)
  pub same_physical : m'.physical ≡ m.physical
  pub same_locked : m'.locked ≡ m.locked

MappedRange-none : (m : Machine) (p : ℕ) (w : ℕ → ℕ) → MappedRange m p 0 w m
MappedRange-none m p w = record {
  directory = λ i. refl;
  entries = λ q b. ground arith;
  same_physical = refl;
  same_locked = refl;
}

MappedRange-more :
    {m m1 m2 : Machine} (p n w0 : ℕ) (w : ℕ → ℕ)
    → Mapped m p w0 m1
    → w p ≡ w0
    → MappedRange m1 (suc p) n w m2
    → MappedRange m p (suc n) w m2
MappedRange-more {m} {m1} p n w0 w first e rest = record {
  directory = λ i. rest.directory i ∙ first.directory i;
  entries = λ q b. elim (ℕ_discrete q p) [
    | yes same ↦
        let w' : w q ≡ w0 = ap w same ∙ e in ground (arith, rest.entries q b, first.entries q b)
    | no other ↦ ground (arith, rest.entries q b, first.entries q b)
  ];
  same_physical = rest.same_physical ∙ first.same_physical;
  same_locked = rest.same_locked ∙ first.same_locked;
}

-- The entries of a range are only looked at inside it.
MappedRange-agree :
    {m m' : Machine} {p n : ℕ} (w w' : ℕ → ℕ)
    → ((q : ℕ) → p ≤ q → q < p + n → w q ≡ w' q)
    → MappedRange m p n w m'
    → MappedRange m p n w' m'
MappedRange-agree w w' same c = record {
  directory = c.directory;
  entries = λ q b. ground (arith, c.entries q b, same q);
  same_physical = c.same_physical;
  same_locked = c.same_locked;
}

mapping_holds_lem :
    (p paddress flags : ℕ)
    → 0 < p
    → 0 < paddress
    → paddress % page_size ≡ 0
    → mapping_holds paddress (p * page_size) flags ≡ true
unfolding mapping_holds
mapping_holds_lem p paddress flags pos ppos aligned = ground arith

unmapping_holds : (p : ℕ) → 0 < p → mapping_holds 0 (p * page_size) 0 ≡ true
unfolding mapping_holds
unmapping_holds p pos = ground arith

HasTable-Mapped :
    {m m' : Machine} {p w : ℕ} (q : ℕ) → Mapped m p w m' → HasTable m q → HasTable m' q
HasTable-Mapped q c (small, outside, there) =
    (small, outside, rw (c.directory (q / table_length)) there)

module _ (p n : ℕ) where
  -- The `n` pages from `p` on have page tables.
  abbrev pub HaveTables : Machine → Type 0
  HaveTables m = (q : ℕ) → p ≤ q → q < p + n → HasTable m q

map_page_range-none :
    (m : Machine) (paddress p flags : ℕ)
    → map_page_range m paddress (p * page_size) 0 flags ≡ some m
unfolding map_page_range
map_page_range-none m paddress p flags = refl

unmap_range-none : (m : Machine) (p : ℕ) → unmap_range m (p * page_size) 0 ≡ some m
unfolding unmap_range
unmap_range-none m p = refl

map_page_range-more :
    (m m1 m2 : Machine) (paddress p n flags : ℕ)
    → paddress + page_size < 2 ^ 32
    → suc p < 2 ^ 20
    → map_page m paddress (p * page_size) flags ≡ some m1
    → map_page_range m1 (paddress + page_size) (suc p * page_size) n flags ≡ some m2
    → map_page_range m paddress (p * page_size) (suc n) flags ≡ some m2
unfolding map_page_range
map_page_range-more m m1 m2 paddress p n flags fits high first rest =
    let next : add32 (p * page_size) page_size ≡ suc p * page_size = omega arith in
    let pnext : add32 paddress page_size ≡ paddress + page_size = omega arith in
    rw first (ap₂ (λ (a b : ℕ). map_page_range m1 a b n flags) pnext next ∙ rest)

unmap_range-more :
    (m m1 m2 : Machine) (p n : ℕ)
    → suc p < 2 ^ 20
    → map_page m 0 (p * page_size) 0 ≡ some m1
    → unmap_range m1 (suc p * page_size) n ≡ some m2
    → unmap_range m (p * page_size) (suc n) ≡ some m2
unfolding unmap_range
unmap_range-more m m1 m2 p n high first rest =
    let next : add32 (p * page_size) page_size ≡ suc p * page_size = omega arith in
    rw first (ap (λ (a : ℕ). unmap_range m1 a n) next ∙ rest)

map_at :
    (m : Machine) (p paddress flags : ℕ)
    → IsSound m
    → HasTable m p
    → mapping_holds paddress (p * page_size) flags ≡ true
    → (m1 : Machine) × (map_page m paddress (p * page_size) flags ≡ some m1)
      × Mapped m p (bit_or paddress flags) m1
map_at m p paddress flags sound has holds =
    let at : p * page_size / page_size ≡ p = omega arith in
    let (m1, done, c) =
      map_page-Mapped m paddress (p * page_size) flags sound (subst (HasTable m) (sym at) has)
        holds in
    (m1, done, subst (λ k. Mapped m k (bit_or paddress flags) m1) at c)

-- `__vm_mapPageRange__noLock`
pub map_page_range-MappedRange :
    (m : Machine) (p paddress n flags : ℕ)
    → IsSound m
    → 0 < p
    → p + n < 2 ^ 20
    → 0 < paddress
    → paddress % page_size ≡ 0
    → paddress + n * page_size < 2 ^ 32
    → HaveTables p n m
    → (m' : Machine) × (map_page_range m paddress (p * page_size) n flags ≡ some m')
      × IsSound m'
      × MappedRange m p n (λ q. bit_or (paddress + (q - p) * page_size) flags) m'
map_page_range-MappedRange m p paddress zero flags sound pos high ppos aligned fits has =
    (m, map_page_range-none m paddress p flags, sound, MappedRange-none m p _)
map_page_range-MappedRange m p paddress (suc n) flags sound pos high ppos aligned fits has =
    let (m1, done, c) =
      map_at m p paddress flags sound (has p (omega arith) (omega arith))
        (mapping_holds_lem p paddress flags pos ppos aligned) in
    let (m2, rest, sound', c2) =
      map_page_range-MappedRange m1 (suc p) (paddress + page_size) n flags (Mapped-IsSound sound c)
        (omega arith) (omega arith) (omega arith) (omega arith) (omega arith)
        (λ q a b. HasTable-Mapped q c (has q (omega arith) (omega arith))) in
    (
      m2,
      map_page_range-more m m1 m2 paddress p n flags (omega arith) (omega arith) done rest,
      sound',
      MappedRange-more p n (bit_or paddress flags)
          (λ q. bit_or (paddress + (q - p) * page_size) flags) c
          (ap (λ (a : ℕ). bit_or a flags) (omega arith))
          (MappedRange-agree _ _ (λ q a b. ap (λ (a : ℕ). bit_or a flags) (omega arith)) c2),
    )

-- the loop of `vm_free`
pub unmap_range-MappedRange :
    (m : Machine) (p n : ℕ)
    → IsSound m
    → 0 < p
    → p + n < 2 ^ 20
    → HaveTables p n m
    → (m' : Machine) × (unmap_range m (p * page_size) n ≡ some m')
      × IsSound m'
      × MappedRange m p n (λ q. 0) m'
unmap_range-MappedRange m p zero sound pos high has =
    (m, unmap_range-none m p, sound, MappedRange-none m p _)
unmap_range-MappedRange m p (suc n) sound pos high has =
    let (m1, done, c) =
      map_at m p 0 0 sound (has p (omega arith) (omega arith)) (unmapping_holds p pos) in
    let (m2, rest, sound', c2) =
      unmap_range-MappedRange m1 (suc p) n (Mapped-IsSound sound c) (omega arith) (omega arith)
        (λ q a b. HasTable-Mapped q c (has q (omega arith) (omega arith))) in
    (
      m2,
      unmap_range-more m m1 m2 p n (omega arith) done rest,
      sound',
      MappedRange-more p n 0 (λ q. 0) c refl c2,
    )

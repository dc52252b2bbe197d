-- ===== src/Memory/Virtual/Mapping/Tables.antt =====
-- What mapping a page does to the entries of the kernel's directory.
use firedrake.Common.Bits.Sum.{bit_or_sum}
use firedrake.Common.{
  bit_or, ℕ, ◌+◌, ◌/◌, ◌%◌, ◌^◌, ◌<◌, ◌≤◌, ◌≡◌, ◌≢◌, refl, sym, ◌∙◌, ◌⊎◌, inl, inr, true, false,
  arith, ℕ_discrete, Bool-cases, some, ltb, ◌&&◌, ◌==◌, if◌then◌else◌,
}
use firedrake.Memory.Physical as Pages
use firedrake.Memory.Physical.{Physical, page_size}
use firedrake.Memory.Virtual.{
  Machine, table_length, kernel_directory, is_present, frame_of, write_word, clear_words,
  flags_userland,
}
use firedrake.Memory.Virtual.Mapping.{mapping_holds, make_table, new_table, set_entry, map_page}

-- The entry of the page `p` in the kernel's page tables, 0 where its table is not there.
abbrev pub entry : Machine → ℕ → ℕ
entry m p =
    let e = m.words kernel_directory (p / table_length) in
    if is_present e then m.words (frame_of e) (p % table_length) else 0

-- the directory's entry that leads to the directory itself, so that the page tables are mapped
abbrev pub self_index : ℕ
self_index = 0xFF

-- The kernel's directory leads to itself, and no two of its entries to one frame.
pub record IsSound (m : Machine) : Type 0 where
  pub self_present : is_present (m.words kernel_directory self_index) ≡ true
  pub self_frame : frame_of (m.words kernel_directory self_index) ≡ kernel_directory
  pub distinct :
      (i j : ℕ)
      → i < table_length
      → j < table_length
      → is_present (m.words kernel_directory i) ≡ true
      → is_present (m.words kernel_directory j) ≡ true
      → frame_of (m.words kernel_directory i) ≡ frame_of (m.words kernel_directory j)
      → i ≡ j

-- The page `p` is outside the pages of the page tables, and its table is there.
abbrev pub HasTable : Machine → ℕ → Type 0
HasTable m p =
    (p < 2 ^ 20)
    × (p / table_length ≢ self_index)
    × (is_present (m.words kernel_directory (p / table_length)) ≡ true)

-- A page is mapped where its table is there: its entry is the new one, the directory and all other
-- entries stay as they are.
pub record Mapped (m : Machine) (p w : ℕ) (m' : Machine) : Type 0 where
  pub directory : (i : ℕ) → m'.words kernel_directory i ≡ m.words kernel_directory i
  pub entries : (q : ℕ) → q < 2 ^ 20 → entry m' q ≡ (if q == p then w else entry m q)
  pub same_physical : m'.physical ≡ m.physical
  pub same_locked : m'.locked ≡ m.locked

pub Mapped-IsSound : {m m' : Machine} {p w : ℕ} → IsSound m → Mapped m p w m' → IsSound m'
Mapped-IsSound s c = record {
  self_present = rw (c.directory self_index) s.self_present;
  self_frame = rw (c.directory self_index) s.self_frame;
  distinct = λ i j. rw (c.directory i, c.directory j) (s.distinct i j);
}

set_entry-Mapped :
    (m : Machine) (p w : ℕ)
    → IsSound m
    → HasTable m p
    → Mapped m p w (set_entry m kernel_directory p w)
unfolding set_entry write_word
set_entry-Mapped m p w sound (small, outside, there) =
    let i = p / table_length in
    let f = frame_of (m.words kernel_directory i) in
    let apart : f ≢ kernel_directory = (λ e. outside (
      sound.distinct i self_index (omega arith) (omega arith) there sound.self_present
        (e ∙ sym sound.self_frame))) in
    let dir = λ (k : ℕ).
      let e : (kernel_directory == f) ≡ false = ground arith in
      let same : (if kernel_directory == f && k == p % table_length
            then w
            else m.words kernel_directory k)
          ≡ m.words kernel_directory k =
        rw e in
      same in
    record {
      directory = dir;
      entries = λ q qb. rw (dir (q / table_length)) (elim (ℕ_discrete q p) [
        | yes same ↦ rw (same, there) (ground arith)
        | no other ↦ elim (Bool-cases (is_present (m.words kernel_directory (q / table_length)))) [
          | inr absent ↦ rw absent (ground arith)
          | inl present ↦
              let miss : (frame_of (m.words kernel_directory (q / table_length)) ≢ f)
                  ⊎ (q % table_length ≢ p % table_length) =
                elim (ℕ_discrete (q % table_length) (p % table_length)) [
                  | no n ↦ inr n
                  | yes s ↦ inl (λ e.
                      let k : q / table_length ≡ i =
                        sound.distinct (q / table_length) i (omega arith) (omega arith) present
                          there e in
                      other (omega arith))
                ] in
              rw present (elim miss [ inl n ↦ ground arith | inr n ↦ ground arith ])
        ]
      ]);
      same_physical = refl;
      same_locked = refl;
    }

-- `__vm_mapPage__noLock` of a page of the kernel's directory whose page table is there, where the
-- assertions hold, on sound tables: the page's entry becomes the address with the flags, and nothing
-- else changes.
pub map_page-Mapped :
    (m : Machine) (paddress vaddress flags : ℕ)
    → IsSound m
    → HasTable m (vaddress / page_size)
    → mapping_holds paddress vaddress flags ≡ true
    → (m' : Machine) × (map_page m paddress vaddress flags ≡ some m')
      × Mapped m (vaddress / page_size) (bit_or paddress flags) m'
unfolding map_page make_table
map_page-Mapped m paddress vaddress flags sound has holds = (
  set_entry m kernel_directory (vaddress / page_size) (bit_or paddress flags),
  rw (holds, has.2),
  set_entry-Mapped m (vaddress / page_size) (bit_or paddress flags) sound has,
)

==_refl : (x : ℕ) → (x == x) ≡ true
==_refl x = ground arith

-- `__vm_mapPage__noLock` of a page of the kernel's directory whose page table is not there, where
-- `pm_alloc` returns a page that is not the directory: an entry of the new page table with an index of
-- 256 or more, but for the page's own, is what the word of the page was.
pub map_page-stale :
    (m : Machine) (paddress vaddress flags page : ℕ) (physical : Physical)
    → mapping_holds paddress vaddress flags ≡ true
    → is_present (m.words kernel_directory (vaddress / page_size / table_length)) ≡ false
    → Pages.alloc m.physical 1 ≡ some (page, physical)
    → page % page_size ≡ 0
    → page / page_size ≢ kernel_directory
    → (m' : Machine) × (map_page m paddress vaddress flags ≡ some m')
      × ((q : ℕ)
          → q / table_length ≡ vaddress / page_size / table_length
          → 256 ≤ q % table_length
          → q ≢ vaddress / page_size
          → entry m' q ≡ m.words (page / page_size) (q % table_length))
unfolding map_page make_table new_table set_entry write_word clear_words
map_page-stale m paddress vaddress flags page physical holds absent given aligned apart =
    let i = vaddress / page_size / table_length in
    let joined : bit_or page flags_userland ≡ page + flags_userland =
      bit_or_sum 12 page flags_userland aligned (omega arith) in
    let new : frame_of (bit_or page flags_userland) ≡ page / page_size = omega arith in
    let here : is_present (bit_or page flags_userland) ≡ true = ground arith in
    (
      set_entry (new_table (record m { physical = physical }) i page) kernel_directory
          (vaddress / page_size) (bit_or paddress flags),
      rw (holds, absent, given),
      λ q same high other.
          let far : ltb (q % table_length) 256 ≡ false = ground arith in
          let apart1 : (kernel_directory == page / page_size) ≡ false = ground arith in
          let apart2 : (page / page_size == kernel_directory) ≡ false = ground arith in
          let differ : (q % table_length == vaddress / page_size % table_length) ≡ false =
            ground arith in
          rw (
            same,
            apart1,
            ==_refl i,
            new,
            apart1,
            here,
            new,
            ==_refl (page / page_size),
            differ,
            far,
            apart2,
          ),
    )

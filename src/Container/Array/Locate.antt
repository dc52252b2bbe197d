-- ===== src/Container/Array/Locate.antt =====
-- What `array_indexOfObject` returns.
use firedrake.Common.{
  ℕ, zero, suc, ◌+◌, ◌<◌, ◌≡◌, ◌≢◌, refl, ◌⊎◌, inl, inr, true, false, arith, ◌==◌, get_or,
  ℕ_discrete,
}
use firedrake.Container.Array.{Array, search, index_of_object}

-- What `array_indexOfObject` finds: the first place of the object, or `UINT32_MAX` if it is nowhere.
pub Located : Array → (object index : ℕ) → Type 0
Located a object index =
    ((index < a.count)
      × (get_or a.data_words index 0 ≡ object)
      × ((k : ℕ) → k < index → get_or a.data_words k 0 ≢ object))
    ⊎ ((index ≡ 0xFFFFFFFF) × ((k : ℕ) → k < a.count → get_or a.data_words k 0 ≢ object))

search-Located :
    (a : Array) (object i n : ℕ)
    → i + n ≡ a.count
    → ((k : ℕ) → k < i → get_or a.data_words k 0 ≢ object)
    → Located a object (search a.data_words object i n)
unfolding search Located
search-Located a object i zero e before = inr (refl, λ k h. before k (omega arith))
search-Located a object i (suc n) e before = elim (ℕ_discrete (get_or a.data_words i 0) object) [
  | yes here ↦
      let test : (get_or a.data_words i 0 == object) ≡ true = ground arith in
      rw (test, search) (inl (omega arith, here, before))
  | no ne ↦
      let test : (get_or a.data_words i 0 == object) ≡ false = ground arith in
      let rest : Located a object (search a.data_words object (i + 1) n) =
        search-Located a object (i + 1) n (omega arith) (λ k h. elim (ℕ_discrete k i) [
          | yes same ↦ rw same ne
          | no other ↦ before k (omega arith)
        ]) in
      rw (test, search) rest
]

-- `array_indexOfObject` returns the first index at which the array holds the object, or `UINT32_MAX` if
-- it does not hold it.
pub index_of_object-Located : (a : Array) (object : ℕ) → Located a object (index_of_object a object)
unfolding index_of_object
index_of_object-Located a object =
    search-Located a object 0 a.count (omega arith) (λ k h. absurd (omega arith))

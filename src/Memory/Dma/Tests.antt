-- ===== src/Memory/Dma/Tests.antt =====
-- The theorem on DMA requests at a concrete machine, and a run.
use firedrake.Common.{
  ℕ, ◌≡◌, refl, Bool, true, false, Option, none, some, List, [], ◌∷◌, ◌⊎◌, arith, length, ◌==◌,
  ◌||◌, if◌then◌else◌,
}
use firedrake.Memory.Physical as Pages
use firedrake.Memory.Virtual.{Machine}
use firedrake.Memory.Dma.{collect, fragments_for, max_fragments}
use firedrake.Memory.Dma.Collect.{AllHave, fragments_for-Collected}

-- a machine whose physical memory is all in use, but for the pages from 32 to 95
abbrev machine : Machine
machine = record {
  words = λ f i. 0;
  physical = record { heap = λ i. if i == 1 || i == 2 then 0xFFFFFFFF else 0; locked = false };
  locked = false;
}

fragments_for-Collected_example :
    ((m' : Machine) × (fs : List (ℕ × ℕ)) × (fragments_for 33 machine 2 false ≡ some (true, fs, m'))
      × (length fs ≡ max_fragments)
      × AllHave 2 fs)
    ⊎ ((g : ℕ) → fragments_for g machine 2 false ≡ none)
fragments_for-Collected_example = fragments_for-Collected 33 machine 2 (omega arith) (omega arith)

-- what a request that is collected holds
abbrev of_fragments : Option (Bool × List (ℕ × ℕ) × Machine) → List (ℕ × ℕ)
of_fragments none = []
of_fragments (some (complete, fs, m)) = fs

-- one round of the loop, with 31 fragments already
last_round : of_fragments (collect 2 machine 2 31 []) ≡ (0x20000, 2) ∷ []
unfolding collect Pages.alloc Pages.alloc_limit Pages.find_free_pages Pages.search_words
    Pages.search_word
last_round = refl

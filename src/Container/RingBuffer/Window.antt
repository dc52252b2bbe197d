-- ===== src/Container/RingBuffer/Window.antt =====
-- What a ring of `size` bytes holds between two of its indices.
use firedrake.Common.{
  ℕ, zero, suc, ◌+◌, ◌<◌, ◌≡◌, refl, ap, ap₂, ◌≢◌, ◌⊎◌, List, [], ◌∷◌, ◌++◌, arith, ◌==◌,
  if◌then◌else◌, length, get_or, set,
}

-- the index behind `h`
abbrev pub next : ℕ → ℕ → ℕ
next size h = if h + 1 == size then 0 else h + 1

-- the `n` bytes from index `h` on, going round at `size`
abbrev pub window : ℕ → List ℕ → ℕ → ℕ → List ℕ
window size bytes h zero = []
window size bytes h (suc n) = get_or bytes h 0 ∷ window size bytes (next size h) n

-- `i` lies `n` places behind `h`.
abbrev pub Behind : ℕ → ℕ → ℕ → ℕ → Type 0
Behind size h n i = (i ≡ h + n) ⊎ (i + size ≡ h + n)

get_or-set_self : (xs : List ℕ) (i v : ℕ) → i < length xs → get_or (set xs i v) i 0 ≡ v
get_or-set_self [] i v h = absurd (omega arith)
get_or-set_self (x ∷ xs) zero v h = refl
get_or-set_self (x ∷ xs) (suc i) v h = get_or-set_self xs i v (omega arith)

get_or-set_ne : (xs : List ℕ) (i j v : ℕ) → i ≢ j → get_or (set xs i v) j 0 ≡ get_or xs j 0
get_or-set_ne [] i j v h = refl
get_or-set_ne (x ∷ xs) zero zero v h = absurd (h refl)
get_or-set_ne (x ∷ xs) zero (suc j) v h = refl
get_or-set_ne (x ∷ xs) (suc i) zero v h = refl
get_or-set_ne (x ∷ xs) (suc i) (suc j) v h = get_or-set_ne xs i j v (λ e. h (ap suc e))

-- Writing just behind a window that does not fill the ring extends it by that byte.
pub window-set :
    (size x n : ℕ) (bytes : List ℕ) (h i : ℕ)
    → length bytes ≡ size
    → h < size
    → n < size
    → i < size
    → Behind size h n i
    → window size (set bytes i x) h (suc n) ≡ window size bytes h n ++ (x ∷ [])
window-set size x zero bytes h i hs hh hn hi b =
    let e : i ≡ h = omega arith in
    ap (λ k. k ∷ []) (ground (arith, get_or-set_self bytes i x (omega arith)))
window-set size x (suc n) bytes h i hs hh hn hi b =
    ap₂ ◌∷◌ (get_or-set_ne bytes i h x (omega arith))
      (window-set size x n bytes (next size h) i hs (ground arith) (omega arith) hi (ground arith))

pub length-window : (size : ℕ) (bytes : List ℕ) (h n : ℕ) → length (window size bytes h n) ≡ n
length-window size bytes h zero = refl
length-window size bytes h (suc n) = ap suc (length-window size bytes (next size h) n)

-- ===== src/Memory/Heap/Change.antt =====
-- Exchanging and removing a zone of the list: the pages stay separate, and what is held is known.
use firedrake.Common.{
  ℕ, zero, suc, ◌+◌, ◌*◌, ◌≤◌, ◌≡◌, refl, sym, ap, ◌∙◌, ◌⊎◌, inl, inr, some, List, [], ◌∷◌, arith,
  get_elem?, set, some_inj,
}
use mathlib.Core.Path.{subst}
use firedrake.Memory.Zone.{Zone, page_size}
use firedrake.Memory.Zone.Inv.{IsValid}
use firedrake.Memory.Heap.{remove_zone}
use firedrake.Memory.Heap.Held.{
  UsedAt, Held, Separate, SeparateFrom, AllSound, used_bounds, Held-outside, Separate-member,
}

-- A zone in the list takes another's place that has the same pages.
separate_set :
    (w : Zone) (zs : List Zone) (n : ℕ) (z z' : Zone)
    → get_elem? zs n ≡ some z
    → z'.begin ≡ z.begin
    → z'.end ≡ z.end
    → SeparateFrom w zs
    → SeparateFrom w (set zs n z')
unfolding SeparateFrom
separate_set w [] n z z' e b f s = s
separate_set w (v ∷ zs) zero z z' e b f (s, ss) =
    let same = some_inj e in let s' : Separate w z = subst (Separate w) same s in (ground arith, ss)
separate_set w (v ∷ zs) (suc n) z z' e b f (s, ss) = (s, separate_set w zs n z z' e b f ss)

separate_same :
    (z z' : Zone) (zs : List Zone)
    → z'.begin ≡ z.begin
    → z'.end ≡ z.end
    → SeparateFrom z zs
    → SeparateFrom z' zs
unfolding SeparateFrom
separate_same z z' [] b f s = s
separate_same z z' (w ∷ zs) b f (s, ss) = (ground arith, separate_same z z' zs b f ss)

pub AllSound-set :
    (zs : List Zone) (n : ℕ) (z z' : Zone)
    → get_elem? zs n ≡ some z
    → z'.begin ≡ z.begin
    → z'.end ≡ z.end
    → z'.pages ≡ z.pages
    → IsValid z'
    → AllSound zs
    → AllSound (set zs n z')
unfolding AllSound
AllSound-set [] n z z' e b f m v' v = v
AllSound-set (w ∷ zs) zero z z' e b f m v' ((_, low, span), s, v) =
    let same = ap (λ (y : Zone). y.begin) (some_inj e) in
    let same' = ap (λ (y : Zone). y.end) (some_inj e) in
    let pages : z'.pages ≡ w.pages = m ∙ ap (λ (y : Zone). y.pages) (sym (some_inj e)) in
    let span' : z'.begin + z'.pages * page_size ≡ z'.end + page_size = rw pages (omega arith) in
    ((v', omega arith, span'), separate_same w z' zs (omega arith) (omega arith) s, v)
AllSound-set (w ∷ zs) (suc n) z z' e b f m v' (g, s, v) =
    (g, separate_set w zs n z z' e b f s, AllSound-set zs n z z' e b f m v' v)

-- What is held after the exchange was held before, or is in the new zone.
pub Held-set_back :
    (zs : List Zone) (n : ℕ) (z' : Zone) (p c : ℕ)
    → Held (set zs n z') p c
    → UsedAt z' p c ⊎ Held zs p c
unfolding Held
Held-set_back [] n z' p c h = absurd h
Held-set_back (w ∷ zs) zero z' p c (inl u) = inl u
Held-set_back (w ∷ zs) zero z' p c (inr h) = inr (inr h)
Held-set_back (w ∷ zs) (suc n) z' p c (inl u) = inr (inl u)
Held-set_back (w ∷ zs) (suc n) z' p c (inr h) = elim (Held-set_back zs n z' p c h) [
  | inl u ↦ inl u
  | inr k ↦ inr (inr k)
]

pub get_set :
    (zs : List Zone) (n : ℕ) (z z' : Zone)
    → get_elem? zs n ≡ some z
    → get_elem? (set zs n z') n ≡ some z'
get_set [] n z z' e = absurd (cc)
get_set (w ∷ zs) zero z z' e = refl
get_set (w ∷ zs) (suc n) z z' e = get_set zs n z z' e

-- What the new zone has in use is held.
pub Held-set_new :
    (zs : List Zone) (n : ℕ) (z z' : Zone) (p c : ℕ)
    → get_elem? zs n ≡ some z
    → UsedAt z' p c
    → Held (set zs n z') p c
unfolding Held
Held-set_new [] n z z' p c e u = absurd (cc)
Held-set_new (w ∷ zs) zero z z' p c e u = inl u
Held-set_new (w ∷ zs) (suc n) z z' p c e u = inr (Held-set_new zs n z z' p c e u)

-- What was held and is kept by the new zone is held after the exchange.
pub Held-set_keep :
    (zs : List Zone) (n : ℕ) (z z' : Zone) (p c : ℕ)
    → get_elem? zs n ≡ some z
    → (UsedAt z p c → UsedAt z' p c)
    → Held zs p c
    → Held (set zs n z') p c
unfolding Held
Held-set_keep [] n z z' p c e keep h = absurd h
Held-set_keep (w ∷ zs) zero z z' p c e keep (inl u) =
    inl (keep (subst (λ y. UsedAt y p c) (some_inj e) u))
Held-set_keep (w ∷ zs) zero z z' p c e keep (inr h) = inr h
Held-set_keep (w ∷ zs) (suc n) z z' p c e keep (inl u) = inl u
Held-set_keep (w ∷ zs) (suc n) z z' p c e keep (inr h) = inr (Held-set_keep zs n z z' p c e keep h)

separate_remove :
    (w : Zone) (zs : List Zone) (n : ℕ) → SeparateFrom w zs → SeparateFrom w (remove_zone zs n)
unfolding SeparateFrom remove_zone
separate_remove w [] n s = s
separate_remove w (v ∷ zs) zero (s, ss) = ss
separate_remove w (v ∷ zs) (suc n) (s, ss) = (s, separate_remove w zs n ss)

pub AllSound-remove_zone : (zs : List Zone) (n : ℕ) → AllSound zs → AllSound (remove_zone zs n)
unfolding AllSound remove_zone
AllSound-remove_zone [] n v = v
AllSound-remove_zone (w ∷ zs) zero (g, s, v) = v
AllSound-remove_zone (w ∷ zs) (suc n) (g, s, v) =
    (g, separate_remove w zs n s, AllSound-remove_zone zs n v)

pub Held-remove_back : (zs : List Zone) (n p c : ℕ) → Held (remove_zone zs n) p c → Held zs p c
unfolding Held remove_zone
Held-remove_back [] n p c h = h
Held-remove_back (w ∷ zs) zero p c h = inr h
Held-remove_back (w ∷ zs) (suc n) p c (inl u) = inl u
Held-remove_back (w ∷ zs) (suc n) p c (inr h) = inr (Held-remove_back zs n p c h)

-- A block is held without a zone, or was one of that zone's.
pub Held-remove_keep :
    (zs : List Zone) (n : ℕ) (z : Zone) (p c : ℕ)
    → get_elem? zs n ≡ some z
    → Held zs p c
    → UsedAt z p c ⊎ Held (remove_zone zs n) p c
unfolding Held remove_zone
Held-remove_keep [] n z p c e h = absurd h
Held-remove_keep (w ∷ zs) zero z p c e (inl u) = inl (subst (λ y. UsedAt y p c) (some_inj e) u)
Held-remove_keep (w ∷ zs) zero z p c e (inr h) = inr h
Held-remove_keep (w ∷ zs) (suc n) z p c e (inl u) = inr (inl u)
Held-remove_keep (w ∷ zs) (suc n) z p c e (inr h) = elim (Held-remove_keep zs n z p c e h) [
  | inl u ↦ inl u
  | inr k ↦ inr (inr k)
]

-- The zone that is removed had its pages to itself: what is held after it lies outside.
pub removed_outside :
    (zs : List Zone) (n : ℕ) (z : Zone) (p c : ℕ)
    → AllSound zs
    → get_elem? zs n ≡ some z
    → Held (remove_zone zs n) p c
    → (p + c + page_size ≤ z.begin) ⊎ (z.end ≤ p)
unfolding Held AllSound remove_zone
removed_outside [] n z p c v e h = absurd h
removed_outside (w ∷ zs) zero z p c (g, s, v) e h =
    subst (λ (y : Zone). (p + c + page_size ≤ y.begin) ⊎ (y.end ≤ p)) (some_inj e)
      (Held-outside w zs p c s v h)
removed_outside (w ∷ zs) (suc n) z p c (g, s, v) e (inl u) =
    let apart = Separate-member w zs n z s e in
    let (a, b, pos, low) = used_bounds w p c g u in ground arith
removed_outside (w ∷ zs) (suc n) z p c (g, s, v) e (inr h) = removed_outside zs n z p c v e h

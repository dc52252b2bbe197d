-- ===== src/Container/RingBuffer/Refine.antt =====
-- A valid ring behaves as a queue of bytes that keeps its newest `size` ones.
use firedrake.Common.{
  ℕ, zero, suc, ◌+◌, ◌-◌, ◌≤◌, ◌<◌, ◌≡◌, refl, ap, ap₂, sym, ◌∙◌, inl, inr, List, [], ◌∷◌, ◌++◌,
  arith, length, get_or, length-append, length-drop, take, drop, Bool-cases, ltb, Option, none,
  some, word,
}
use mathlib.Core.List.{append-nil, append_assoc}
use firedrake.Container.RingBuffer.{
  RingBuffer, load, store, fresh, put, write, advance, read, create,
}
use firedrake.Container.RingBuffer.Inv.{
  IsValid, cycle_next, put_cases, put-IsValid, advance-IsValid,
}
use firedrake.Container.RingBuffer.Window.{next, window, window-set, length-window}

-- the bytes that the ring holds, oldest first
abbrev pub contents : RingBuffer → List ℕ
contents r = window r.size r.storage (r.begin - r.buffer) r.count

-- the newest `n` bytes
abbrev pub keep_last : ℕ → List ℕ → List ℕ
keep_last n xs = drop (length xs - n) xs

drop-append : (k : ℕ) (xs ys : List ℕ) → k ≤ length xs → drop k (xs ++ ys) ≡ drop k xs ++ ys
drop-append zero xs ys h = refl
drop-append (suc k) [] ys h = absurd (omega arith)
drop-append (suc k) (x ∷ xs) ys h = drop-append k xs ys (omega arith)

drop-nil : (j : ℕ) → drop {A = ℕ} j [] ≡ []
drop-nil zero = refl
drop-nil (suc j) = refl

take-nil : (j : ℕ) → take {A = ℕ} j [] ≡ []
take-nil zero = refl
take-nil (suc j) = refl

drop-drop : (k j : ℕ) (xs : List ℕ) → drop j (drop k xs) ≡ drop (j + k) xs
drop-drop zero j xs = ap (λ n. drop n xs) (omega arith)
drop-drop (suc k) j [] = drop-nil j ∙ sym (drop-nil (j + suc k))
drop-drop (suc k) j (x ∷ xs) =
    drop-drop k j xs
    ∙ ap (λ n. drop n (x ∷ xs)) (let e : suc (j + k) ≡ j + suc k = omega arith in e)

-- Of what is kept, and what follows it, the same is kept.
keep_last-append :
    (n : ℕ) (xs ys : List ℕ) → keep_last n (keep_last n xs ++ ys) ≡ keep_last n (xs ++ ys)
keep_last-append n xs ys =
    let k = length xs - n in
    let e : drop k xs ++ ys ≡ drop k (xs ++ ys) = sym (drop-append k xs ys (omega arith)) in
    rw e (
      drop-drop k (length (drop k (xs ++ ys)) - n) (xs ++ ys)
      ∙ ap (λ m. drop m (xs ++ ys)) (omega (arith, length-drop k (xs ++ ys), length-append xs ys)))

size-put : (r : RingBuffer) (x : ℕ) → (put r x).size ≡ r.size
unfolding put
size-put r x = refl

length-contents : (r : RingBuffer) → length (contents r) ≡ r.count
length-contents r = length-window r.size r.storage (r.begin - r.buffer) r.count

put_room :
    (r : RingBuffer) (x : ℕ)
    → IsValid r
    → r.count < r.size
    → window r.size (put r x).storage (r.begin - r.buffer) (suc r.count) ≡ contents r ++ (x ∷ [])
unfolding put store
put_room r x v h =
    window-set r.size x r.count r.storage (r.begin - r.buffer) (r.end - r.buffer) v.storage_size
      (omega arith) h (omega arith) (ground arith)

put_full :
    (r : RingBuffer) (x m : ℕ)
    → IsValid r
    → r.size ≡ suc m
    → r.end ≡ r.begin
    → window r.size (put r x).storage (next r.size (r.begin - r.buffer)) (suc m)
      ≡ window r.size r.storage (next r.size (r.begin - r.buffer)) m ++ (x ∷ [])
unfolding put store
put_full r x m v e full =
    window-set r.size x m r.storage (next r.size (r.begin - r.buffer)) (r.end - r.buffer)
      v.storage_size (ground arith) (omega arith) (omega arith) (ground arith)

drop_full :
    (r : RingBuffer) (x m : ℕ)
    → r.size ≡ suc m
    → r.count ≡ r.size
    → keep_last r.size (contents r ++ (x ∷ []))
      ≡ window r.size r.storage (next r.size (r.begin - r.buffer)) m ++ (x ∷ [])
drop_full r x m e full =
    let one : length (contents r ++ (x ∷ [])) - r.size ≡ 1 =
      omega (arith, length-append (contents r) (x ∷ []), length-contents r) in
    let whole : contents r ≡ window r.size r.storage (r.begin - r.buffer) (suc m) =
      ap (window r.size r.storage (r.begin - r.buffer)) (full ∙ e) in
    ap (λ n. drop n (contents r ++ (x ∷ []))) one ∙ ap (λ q. drop 1 (q ++ (x ∷ []))) whole

put_unfolded :
    (r : RingBuffer) (x : ℕ)
    → contents (put r x)
      ≡ window r.size (put r x).storage ((put r x).begin - r.buffer) (put r x).count
unfolding put
put_unfolded r x = refl

contents-put :
    (r : RingBuffer) (x : ℕ)
    → IsValid r
    → contents (put r x) ≡ keep_last r.size (contents r ++ (x ∷ []))
contents-put r x v = elim (put_cases r x v) [
  | inl (room, count, begin) ↦
      let none_dropped : length (contents r ++ (x ∷ [])) - r.size ≡ 0 =
        omega (arith, length-append (contents r) (x ∷ []), length-contents r) in
      put_unfolded r x
      ∙ ap₂ (window r.size (put r x).storage) (omega arith)
          (let e : (put r x).count ≡ suc r.count = omega arith in e)
      ∙ put_room r x v room
      ∙ sym (ap (λ n. drop n (contents r ++ (x ∷ []))) none_dropped)
  | inr (full, count, begin, same, _) ↦
      let e : r.size ≡ suc (r.size - 1) = omega arith in
      put_unfolded r x
      ∙ ap₂ (window r.size (put r x).storage) (omega arith) (count ∙ e)
      ∙ put_full r x (r.size - 1) v e same
      ∙ sym (drop_full r x (r.size - 1) e full)
]

-- `ringbuffer_write` on a valid ring leaves a valid ring holding the newest `size` bytes of what it held followed
-- by what was written: the oldest bytes are overwritten, and nothing else is lost.
pub contents-write :
    (xs : List ℕ) {r : RingBuffer}
    → IsValid r
    → IsValid (write r xs) × (contents (write r xs) ≡ keep_last r.size (contents r ++ xs))
unfolding write
contents-write [] {r} v =
    let whole : length (contents r) - r.size ≡ 0 = omega (arith, length-contents r) in
    (v, rw (append-nil (contents r)) (sym (ap (λ n. drop n (contents r)) whole)))
contents-write (x ∷ xs) {r} v =
    let (valid, rest) = contents-write xs (put-IsValid x v) in
    (
      valid,
      rest
          ∙ ap₂ (λ n q. keep_last n (q ++ xs)) (size-put r x) (contents-put r x v)
          ∙ keep_last-append r.size (contents r ++ (x ∷ [])) xs
          ∙ ap (keep_last r.size) (append_assoc (contents r) (x ∷ []) xs),
    )

read_step :
    (r : RingBuffer) → IsValid r → 0 < r.count → contents r ≡ load r r.begin ∷ contents (advance r)
unfolding load advance
read_step r v h =
    let more : r.count ≡ suc (r.count - 1) = omega arith in
    ap (window r.size r.storage (r.begin - r.buffer)) more
    ∙ ap (λ q. get_or r.storage (r.begin - r.buffer) 0 ∷ q)
        (ap₂ (window r.size r.storage) (omega (arith, cycle_next r r.begin v)) (omega arith))

read_empty :
    (r : RingBuffer)
    → (n : ℕ) → r.count ≡ 0
    → (contents r ≡ []) × (take n (contents r) ≡ []) × (drop n (contents r) ≡ [])
read_empty r n h =
    let none_held : contents r ≡ [] = ap (window r.size r.storage (r.begin - r.buffer)) h in
    (none_held, ap (take n) none_held ∙ take-nil n, ap (drop n) none_held ∙ drop-nil n)

-- `ringbuffer_read` of `n` bytes takes the `n` oldest bytes of a valid ring (all of them if there
-- are fewer), in order, and leaves a valid ring that holds the others.
pub contents-read :
    (n : ℕ) {r : RingBuffer}
    → IsValid r
    → ((read r n).0 ≡ take n (contents r))
      × (contents (read r n).1 ≡ drop n (contents r))
      × IsValid (read r n).1
unfolding read
contents-read zero v = (refl, refl, v)
contents-read (suc n) {r} v = elim (Bool-cases (ltb 0 r.count)) [
  | inl more ↦
      let h : 0 < r.count = ground arith in
      let (bytes, left, valid) = contents-read n (advance-IsValid v h) in
      rw (more, read_step r v h) (ap (λ q. load r r.begin ∷ q) bytes, left, valid)
  | inr over ↦
      let (none_held, none_taken, none_left) = read_empty r (suc n) (ground arith) in
      rw over (sym none_taken, none_held ∙ sym none_left, v)
]

abbrev pub pointers : Option ℕ → List ℕ
pointers none = []
pointers (some p) = p ∷ []

abbrev pub buffers : Option (ℕ × List ℕ) → List ℕ
buffers none = []
buffers (some (p, _)) = p ∷ []

-- what `ringbuffer_create` has to give for what `halloc` returned
abbrev pub Created : Option ℕ → Option (ℕ × List ℕ) → Option RingBuffer × List ℕ → Type 0
Created (some ring) (some _) (some r, freed) = IsValid r × (contents r ≡ []) × (freed ≡ [])
Created (some ring) (some _) (none, freed) = ⊥
Created ring memory (made, freed) = (made ≡ none) × (freed ≡ pointers ring ++ buffers memory)

-- Over `size` bytes of memory, `size` not 0, `ringbuffer_create` makes a valid empty ring when both
-- allocations succeed; when one fails it returns none, and frees exactly what the other gave.
pub create_lem :
    (ring : Option ℕ) (memory : Option (ℕ × List ℕ)) (size : ℕ)
    → 0 < size
    → ((buffer : ℕ) (bytes : List ℕ)
        → memory ≡ some (buffer, bytes)
        → (length bytes ≡ size) × (0 < buffer) × (buffer + size < word))
    → Created ring memory (create ring memory size)
unfolding create fresh
create_lem (some ring) (some (buffer, bytes)) size h ok =
    let (full, not_null, no_wrap) = ok buffer bytes refl in
    (
      record {
        storage_size = full;
        limit = omega arith;
        no_wrap = no_wrap;
        not_null = not_null;
        size_pos = h;
        begin_low = omega arith;
        begin_high = omega arith;
        end_low = omega arith;
        end_high = omega arith;
        count_le = omega arith;
        behind = inl (omega arith);
      },
      refl,
      refl,
    )
create_lem (some ring) none size h ok = (refl, refl)
create_lem none (some (buffer, bytes)) size h ok = (refl, refl)
create_lem none none size h ok = (refl, refl)

-- ===== src/Ring/Window.antt =====
-- A stretch of the slots that goes round the end, and what writes and block copies do to it.
use shm_spsc.Base.{
  ℕ, zero, suc, ◌+◌, ◌-◌, ◌<◌, ◌≤◌, ◌≡◌, refl, sym, ap, ap₂, ◌∙◌, List, [], ◌∷◌, ◌++◌, Option, none,
  some, arith, length, get_elem?, set, take, drop, length-set, get_elem?-set_self, get_elem?-set_ne,
  take-append_left, drop-append_left, drop-get_elem?,
}
use mathlib.Core.List.{append-nil, append_assoc}
use native.Mathlib.Nat.{zero-add, add-zero}
use shm_spsc.Ring.{copy_in}
use shm_spsc.Ring.Index.{
  advance, advance-ne, advance-lt, advance-zero, advance-suc, advance-suc_last, advance-one,
  advance-one_suc,
}

module _ {ℓ} {A : Type ℓ} where
  -- A slot's element in front of a list; a slot that is not there adds nothing.
  abbrev pub cons? : Option A → List A → List A
  cons? none xs = xs
  cons? (some x) xs = x ∷ xs

  -- The `n` elements from slot `h` on, going round at `cap`.
  unfoldable pub window : List A → ℕ → ℕ → ℕ → List A
  window buf cap h zero = []
  window buf cap h (suc n) = cons? (get_elem? buf h) (window buf cap (advance cap h 1) n)

  cons?-append : (o : Option A) (xs ys : List A) → cons? o xs ++ ys ≡ cons? o (xs ++ ys)
  cons?-append none xs ys = refl
  cons?-append (some x) xs ys = refl

  pub get_elem?_in : (xs : List A) (i : ℕ) → i < length xs → (x : A) × (get_elem? xs i ≡ some x)
  get_elem?_in [] i h = absurd (omega arith)
  get_elem?_in (x ∷ xs) zero h = (x, refl)
  get_elem?_in (x ∷ xs) (suc i) h = get_elem?_in xs i (omega arith)

module _ {ℓ} {A : Type ℓ} (buf : List A) (cap : ℕ) (whole : cap ≤ length buf) where
  pub length-window : (h n : ℕ) → h < cap → n ≤ cap → length (window buf cap h n) ≡ n
  unfolding window
  length-window h zero p q = refl
  length-window h (suc n) p q =
      let (x, e) = get_elem?_in buf h (omega arith) in
      rw e (
        ap suc
          (length-window (advance cap h 1) n (advance-lt cap h 1 p (omega arith)) (omega arith)))

  -- The first element of a window that holds one.
  pub window-suc :
      (h n : ℕ)
      → h < cap
      → 0 < n
      → (x : A) × (get_elem? buf h ≡ some x)
        × (window buf cap h n ≡ x ∷ window buf cap (advance cap h 1) (n - 1))
  unfolding window
  window-suc h zero p q = absurd (omega arith)
  window-suc h (suc n) p q =
      let (x, e) = get_elem?_in buf h (omega arith) in
      (x, e, rw e (ap (λ k. x ∷ window buf cap (advance cap h 1) k) (omega arith)))

module _ {ℓ} {A : Type ℓ} (cap : ℕ) where
  pub window-append :
      (buf : List A) (h m n : ℕ)
      → h < cap
      → m + n ≤ cap
      → window buf cap h (m + n) ≡ window buf cap h m ++ window buf cap (advance cap h m) n
  unfolding window
  window-append buf h zero n p q = rw (zero-add, advance-zero cap h p)
  window-append buf h (suc m) n p q =
      let e : suc m + n ≡ suc (m + n) = omega arith in
      let next = advance-lt cap h 1 p (omega arith) in
      rw
        (
          e,
          advance-suc cap h m p (omega arith),
          window-append buf (advance cap h 1) m n next (omega arith),
        )
        (sym (cons?-append (get_elem? buf h) _ _))

  -- A write just past a window extends it by that element.
  pub window-set :
      (buf : List A) (x : A) (h n i : ℕ)
      → cap ≤ length buf
      → h < cap
      → n < cap
      → i ≡ advance cap h n
      → window (set buf i x) cap h (suc n) ≡ window buf cap h n ++ x ∷ []
  unfolding window
  window-set buf x h zero i hs hh hn e =
      rw (e, advance-zero cap h hh, get_elem?-set_self buf h x (omega arith))
  window-set buf x h (suc n) i hs hh hn e =
      let next = advance-lt cap h 1 hh (omega arith) in
      let other = advance-ne cap h (suc n) hh (omega arith) hn in
      ap₂ cons? (get_elem?-set_ne buf x (rw e other)) (
        window-set buf x (advance cap h 1) n i hs next (omega arith)
          (e ∙ advance-suc cap h n hh (omega arith)))
      ∙ sym (cons?-append (get_elem? buf h) _ _)

  -- Elements written one after another, going round at `cap`.
  unfoldable pub write_run : List A → ℕ → List A → List A
  write_run buf w [] = buf
  write_run buf w (x ∷ xs) = write_run (set buf w x) (advance cap w 1) xs

  pub length-write_run :
      (buf : List A) (w : ℕ) (xs : List A) → length (write_run buf w xs) ≡ length buf
  unfolding write_run
  length-write_run buf w [] = refl
  length-write_run buf w (x ∷ xs) = length-write_run (set buf w x) _ xs ∙ length-set buf w x

  -- A run written just past a window extends it by that run.
  pub window-write_run :
      (buf : List A) (h n : ℕ) (xs : List A)
      → cap ≤ length buf
      → h < cap
      → n + length xs < cap
      → window (write_run buf (advance cap h n) xs) cap h (n + length xs) ≡ window buf cap h n ++ xs
  unfolding write_run
  window-write_run buf h n [] hs hh hn = rw (add-zero, append-nil)
  window-write_run buf h n (x ∷ xs) hs hh hn =
      let buf' = set buf (advance cap h n) x in
      let e : n + suc (length xs) ≡ suc n + length xs = omega arith in
      let rest =
        window-write_run buf' h (suc n) xs (omega (arith, length-set buf (advance cap h n) x)) hh
          (omega arith) in
      rw
        (
          e,
          ← advance-suc_last cap h n hh (omega arith),
          rest,
          window-set buf x h n _ hs hh (omega arith) refl,
        )
        (append_assoc (window buf cap h n) (x ∷ []) xs)

  pub copy_in-write_run :
      (buf : List A) (w : ℕ) (xs : List A)
      → w + length xs ≤ cap
      → copy_in buf w xs ≡ write_run buf w xs
  unfolding write_run
  copy_in-write_run buf w [] h = refl
  copy_in-write_run buf w (x ∷ []) h = refl
  copy_in-write_run buf w (x ∷ y ∷ ys) h =
      rw (advance-one cap w (omega arith))
        (copy_in-write_run (set buf w x) (w + 1) (y ∷ ys) (omega arith))

  pub write_run-append :
      (buf : List A) (w : ℕ) (xs ys : List A)
      → w < cap
      → length xs ≤ cap
      → write_run buf w (xs ++ ys) ≡ write_run (write_run buf w xs) (advance cap w (length xs)) ys
  unfolding write_run
  write_run-append buf w [] ys p q = rw (advance-zero cap w p)
  write_run-append buf w (x ∷ xs) ys p q = rw (advance-suc cap w (length xs) p (omega arith)) (
      write_run-append (set buf w x) (advance cap w 1) xs ys (advance-lt cap w 1 p (omega arith))
        (omega arith))

  -- A block copy out of the slots, up to their end.
  pub take-drop-window :
      (buf : List A) (r n : ℕ)
      → r + n ≤ cap
      → cap ≤ length buf
      → take n (drop r buf) ≡ window buf cap r n
  unfolding window
  take-drop-window buf r zero p q = refl
  take-drop-window buf r (suc zero) p q =
      let (x, e) = get_elem?_in buf r (omega arith) in rw (drop-get_elem? buf r x e, e)
  take-drop-window buf r (suc (suc n)) p q =
      let (x, e) = get_elem?_in buf r (omega arith) in
      rw (drop-get_elem? buf r x e, e, advance-one_suc cap r (omega arith))
        (ap (◌∷◌ x) (take-drop-window buf (suc r) (suc n) (omega arith) q))

  pub take-window :
      (buf : List A) (h n m : ℕ)
      → h < cap
      → cap ≤ length buf
      → n ≤ m
      → m ≤ cap
      → take n (window buf cap h m) ≡ window buf cap h n
  take-window buf h n m hh whole hn hm =
      let e : n + (m - n) ≡ m = omega arith in
      rw (← e, window-append buf h n (m - n) hh (omega arith))
        (take-append_left n _ _ (length-window buf cap whole h n hh (omega arith)))

  pub drop-window :
      (buf : List A) (h n m : ℕ)
      → h < cap
      → cap ≤ length buf
      → n ≤ m
      → m ≤ cap
      → drop n (window buf cap h m) ≡ window buf cap (advance cap h n) (m - n)
  drop-window buf h n m hh whole hn hm =
      let e : n + (m - n) ≡ m = omega arith in
      ap (drop n) (ap (window buf cap h) (sym e) ∙ window-append buf h n (m - n) hh (omega arith))
      ∙ drop-append_left n _ _ (length-window buf cap whole h n hh (omega arith))

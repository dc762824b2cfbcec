-- ===== src/Report/Sort.antt =====
-- Sorted lists, and how many elements are below a bound.
use shm_spsc.Base.{
  ℕ, suc, ◌≤◌, ◌≡◌, refl, ap, ◌∙◌, inl, inr, Bool, true, false, Bool-cases, List, [], ◌∷◌, ltb, leb,
  if◌then◌else◌, length, arith, ltb→lt, ltb-not,
}
use shm_spsc.Report.{insert, sort}

abbrev pub tally : (ℕ → Bool) → List ℕ → ℕ
tally p [] = 0
tally p (x ∷ xs) = if p x then suc (tally p xs) else tally p xs

-- How many are below `x`, and how many are no more than `x`.
abbrev pub below : ℕ → List ℕ → ℕ
below x = tally (λ y. ltb y x)

abbrev pub upto : ℕ → List ℕ → ℕ
upto x = tally (λ y. leb y x)

tally-insert : (p : ℕ → Bool) (x : ℕ) (xs : List ℕ) → tally p (insert x xs) ≡ tally p (x ∷ xs)
tally-insert p x [] = refl
tally-insert p x (y ∷ ys) = elim (Bool-cases (ltb y x)) [
  | inr stop ↦ rw stop refl
  | inl on ↦ rw (on, tally-insert p x ys) (swap (p x) (p y) (tally p ys))
]
  where
    swap :
        (a b : Bool) (n : ℕ)
        → (if b then suc (if a then suc n else n) else (if a then suc n else n))
          ≡ (if a then suc (if b then suc n else n) else (if b then suc n else n))
    swap true true n = refl
    swap true false n = refl
    swap false true n = refl
    swap false false n = refl

-- Sorting moves elements and changes none.
pub tally-sort : (p : ℕ → Bool) (xs : List ℕ) → tally p (sort xs) ≡ tally p xs
unfolding sort
tally-sort p [] = refl
tally-sort p (x ∷ xs) = tally-insert p x (sort xs) ∙ rw (tally-sort p xs) refl

length-insert : (x : ℕ) (xs : List ℕ) → length (insert x xs) ≡ suc (length xs)
length-insert x [] = refl
length-insert x (y ∷ ys) = elim (Bool-cases (ltb y x)) [
  | inr stop ↦ rw stop refl
  | inl on ↦ rw on (ap suc (length-insert x ys))
]

pub length-sort : (xs : List ℕ) → length (sort xs) ≡ length xs
unfolding sort
length-sort [] = refl
length-sort (x ∷ xs) = length-insert x (sort xs) ∙ ap suc (length-sort xs)

abbrev pub AllFrom : ℕ → List ℕ → Type 0
AllFrom x [] = Unit
AllFrom x (y ∷ ys) = (x ≤ y) × AllFrom x ys

abbrev pub IsSorted : List ℕ → Type 0
IsSorted [] = Unit
IsSorted (x ∷ xs) = AllFrom x xs × IsSorted xs

weaken : (x y : ℕ) (ys : List ℕ) → x ≤ y → AllFrom y ys → AllFrom x ys
weaken x y [] h a = tt
weaken x y (z ∷ ys) h (lo, a) = (omega arith, weaken x y ys h a)

insert-AllFrom : (x y : ℕ) (ys : List ℕ) → y ≤ x → AllFrom y ys → AllFrom y (insert x ys)
insert-AllFrom x y [] h a = (h, tt)
insert-AllFrom x y (z ∷ ys) h (lo, a) = elim (Bool-cases (ltb z x)) [
  | inr stop ↦ rw stop (h, (lo, a))
  | inl on ↦ rw on (lo, insert-AllFrom x y ys h a)
]

insert-IsSorted : (x : ℕ) (xs : List ℕ) → IsSorted xs → IsSorted (insert x xs)
insert-IsSorted x [] s = (tt, tt)
insert-IsSorted x (y ∷ ys) (a, s) = elim (Bool-cases (ltb y x)) [
  | inr stop ↦ let le = ltb-not y x stop in rw stop ((le, weaken x y ys le a), (a, s))
  | inl on ↦ rw on (insert-AllFrom x y ys (omega (arith, ltb→lt y x on)) a, insert-IsSorted x ys s)
]

pub sort-IsSorted : (xs : List ℕ) → IsSorted (sort xs)
unfolding sort
sort-IsSorted [] = tt
sort-IsSorted (x ∷ xs) = insert-IsSorted x (sort xs) (sort-IsSorted xs)

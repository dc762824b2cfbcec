-- ===== src/Queue.antt =====
-- What the ring promises: a FIFO of at most `limit` elements, oldest first.
use shm_spsc.Base.{
  ℕ, ◌-◌, min, Bool, true, false, Option, none, some, List, [], ◌∷◌, ◌++◌, ◌==◌, if◌then◌else◌,
  length, take, drop,
}

module _ {ℓ} {A : Type ℓ} where
  abbrev pub first : List A → Option A
  first [] = none
  first (x ∷ q) = some x

  unfoldable pub pop : List A → Bool × Option A × List A
  pop [] = (false, none, [])
  pop (x ∷ q) = (true, some x, q)

  unfoldable pub pop_n : ℕ → List A → ℕ × List A × List A
  pop_n n q = (min n (length q), take n q, drop n q)

module _ {ℓ} {A : Type ℓ} (limit : ℕ) where
  unfoldable pub push : A → List A → Bool × List A
  push x q = if length q == limit then (false, q) else (true, q ++ x ∷ [])

  -- As many of the first `n` elements of `src` as there is room for.
  unfoldable pub push_n : List A → ℕ → List A → ℕ × List A
  push_n src n q = let count = min n (limit - length q) in (count, q ++ take count src)

-- ===== src/Spsc/Stores.antt =====
-- A release store of an index, and the elements behind it.
use shm_spsc.Base.{
  ℕ, ◌+◌, ◌≤◌, ◌≡◌, arith, ◌==◌, if◌then◌else◌, eq→==, ne→==, List, ◌++◌, length, take, drop, zero,
  suc, [], ◌∷◌, refl, ap, ◌<◌, sym, ◌∙◌, length-append, set, get_elem?-set_self, get_elem?-set_ne,
  get_elem?-append_left, get_elem?-append_last,
}
use native.Mathlib.Decide.{ℕ_discrete}
use native.Mathlib.Nat.{le_trans}
use shm_spsc.Spsc.{Index, store}
use shm_spsc.Spsc.Places.{slot_of, slot_of-lt, slot_of-ne}
use shm_spsc.Spsc.Invariant.{IsIndex, Stored}

-- The totals behind the stores of `x`, and a further store with `n` behind it.
abbrev pub extend : Index → (ℕ → ℕ) → ℕ → ℕ → ℕ
extend x total n k = if k == x.last + 1 then n else total k

module _ (x : Index) (total : ℕ → ℕ) (n : ℕ) where
  pub extend_last : extend x total n (x.last + 1) ≡ n
  extend_last = rw (eq→== (x.last + 1) (x.last + 1) refl)

  pub extend_old : (k : ℕ) → k ≤ x.last → extend x total n k ≡ total k
  extend_old k h = rw (ne→== k (x.last + 1) (λ e. absurd (omega arith)))

pub store-IsIndex :
    {cap : ℕ} {x : Index} {total : ℕ → ℕ} (v n : ℕ)
    → IsIndex cap x total
    → v ≡ slot_of cap n
    → total x.last ≤ n
    → IsIndex cap (store v x) (extend x total n)
store-IsIndex {cap} {x} {total} v n i e h = record {
  placed = λ k hk. ground (arith, i.placed k);
  grows = λ j k hj hk. ground (arith, i.grows j k, i.grows j x.last);
}

module _ {ℓ} {A : Type ℓ} where
  -- What has been published does not change under further elements.
  pub take-append : (n : ℕ) (xs ys : List A) → n ≤ length xs → take n (xs ++ ys) ≡ take n xs
  take-append zero xs ys h = refl
  take-append (suc n) [] ys h = absurd (omega arith)
  take-append (suc n) (x ∷ xs) ys h = ap (◌∷◌ x) (take-append n xs ys (omega arith))

  pub take-drop-append :
      (n r : ℕ) (xs ys : List A)
      → r + n ≤ length xs
      → take n (drop r (xs ++ ys)) ≡ take n (drop r xs)
  take-drop-append n zero xs ys h = take-append n xs ys (omega arith)
  take-drop-append n (suc r) [] ys h = absurd (omega arith)
  take-drop-append n (suc r) (x ∷ xs) ys h = take-drop-append n r xs ys (omega arith)

-- A write of the next element of the stream, less than a round ahead of all that is still needed.
pub Stored-set {ℓ} :
    {A : Type ℓ} (cap r : ℕ) (all slots : List A) (x : A) (i : ℕ)
    → 0 < cap
    → cap ≤ length slots
    → r ≤ length all
    → length all < r + cap
    → i ≡ slot_of cap (length all)
    → Stored cap r all slots
    → Stored cap r (all ++ x ∷ []) (set slots i x)
Stored-set cap r all slots x i pos whole from near e st p lo hi = elim (ℕ_discrete p (length all)) [
  | yes last ↦ rw (
    last,
    ← e,
    get_elem?-set_self slots i x (rw e (le_trans (slot_of-lt cap pos (length all)) whole)),
    get_elem?-append_last all x (length all) refl,
  )
  | no other ↦
      let below : p < length all = omega (arith, length-append all (x ∷ [])) in
      get_elem?-set_ne slots x (rw e (slot_of-ne cap pos p (length all) below (omega arith)))
      ∙ st p lo below
      ∙ sym (get_elem?-append_left all (x ∷ []) p below)
]

-- ===== src/Claim/Run.antt =====
-- What the loop of `bind` in include/shmspsc/ShmSpscQueue.h comes to.
use shm_spsc.Base.{
  ℕ, zero, suc, ◌≡◌, true, false, some, List, [], ◌∷◌, ◌++◌, replicate, refl, ◌⊎◌, ◌∙◌, ap, inl,
  inr,
}
use shm_spsc.Base.Int.{ℤ, eq_int, eq_int_iff}
use shm_spsc.Claim.{Kill, Verdict, judge, exchange, Claimed, Attempt, claim, decide, retry}

pub eq_int_self : (v : ℤ) → eq_int v v ≡ true
eq_int_self v = (eq_int_iff v v).1 refl

pub Verdict-cases :
    (j : Verdict) → (j ≡ Verdict.mine) ⊎ (j ≡ Verdict.conflict) ⊎ (j ≡ Verdict.vacant)
Verdict-cases Verdict.mine = inl refl
Verdict-cases Verdict.conflict = inr (inl refl)
Verdict-cases Verdict.vacant = inr (inr refl)

-- What a verdict comes to when the exchange succeeds.
abbrev pub settled : ℤ → Verdict → Claimed
settled v Verdict.mine = Claimed.kept
settled v Verdict.conflict = Claimed.refused v
settled v Verdict.vacant = Claimed.stored

claim-cons :
    (kill : Kill) (self v : ℤ) (a : Attempt) (rest : List Attempt)
    → claim kill self (a ∷ rest) v
      ≡ decide v (judge kill self v) (retry (exchange a.weak a.slot v self) (claim kill self rest))
unfolding claim
claim-cons kill self v a rest = refl

-- With a slot that no other process changes, and after any number of spurious failures, the loop of
-- `bind` ends: it keeps a slot of its own, is refused one of a live process, and takes any other.
pub claim_alone :
    (kill : Kill) (self v : ℤ) (n : ℕ)
    → claim kill self
        (replicate n (record { slot = v; weak = true }) ++ record { slot = v; weak = false } ∷ [])
        v
      ≡ some (settled v (judge kill self v))
unfolding exchange
claim_alone kill self v zero =
    claim-cons kill self v _ _ ∙ (elim (Verdict-cases (judge kill self v)) [
      | inl own ↦ rw own refl
      | inr (inl held) ↦ rw held refl
      | inr (inr free) ↦ rw (free, eq_int_self) refl
    ])
claim_alone kill self v (suc n) =
    claim-cons kill self v _ _ ∙ (elim (Verdict-cases (judge kill self v)) [
      | inl own ↦ rw own refl
      | inr (inl held) ↦ rw held refl
      | inr (inr free) ↦
          rw (free, eq_int_self) (claim_alone kill self v n ∙ ap (λ j. some (settled v j)) free)
    ])

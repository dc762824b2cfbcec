-- ===== src/Segment/Names.antt =====
-- `validateName` of include/shmspsc/ShmSegment.h.
use shm_spsc.Base.{
  ℕ, suc, ◌≤◌, ◌≡◌, ◌≢◌, ◌↔◌, Bool, true, false, ◌||◌, none, some, List, [], ◌∷◌, ◌==◌, ==-ne,
  ==_iff, eq→==, le→ltb, ltb-not, ne→==, ltb, length, arith, Bool-cases, inl, inr, refl,
}
use shm_spsc.Segment.{validate_name, has_slash, slash, max_shm_name_len}

-- No byte of the list is a slash.
abbrev pub NoSlash : List ℕ → Type 0
NoSlash [] = Unit
NoSlash (c ∷ name) = (c ≢ slash) × NoSlash name

-- A slash, and then one to thirty other bytes.
abbrev pub IsName : List ℕ → Type 0
IsName [] = ⊥
IsName (c ∷ name) = (c ≡ slash) × (1 ≤ length name) × (length name ≤ 30) × NoSlash name

some-none {ℓ} : {A : Type ℓ} {a : A} → some a ≡ none → ⊥
some-none h = cc

or_false : (a b : Bool) → (a || b) ≡ false → (a ≡ false) × (b ≡ false)
or_false false b h = (refl, h)
or_false true b h = cc

forth : (name : List ℕ) → has_slash name ≡ false → NoSlash name
forth [] h = tt
forth (c ∷ name) h =
    let (first, rest) = or_false (c == slash) (has_slash name) h in
    (==-ne c slash first, forth name rest)

back : (name : List ℕ) → NoSlash name → has_slash name ≡ false
back [] h = refl
back (c ∷ name) (d, h) = rw (ne→== c slash d) (back name h)

module _ (c : ℕ) (rest : List ℕ) where
  accept : IsName (c ∷ rest) → validate_name (c ∷ rest) ≡ none
  unfolding validate_name
  accept (e, lo, hi, plain) =
      rw
        (
          le→ltb (suc (length rest)) 2 (omega arith),
          eq→== c slash e,
          le→ltb max_shm_name_len (suc (length rest)) (omega arith),
          back rest plain,
        )
        refl

  sound : validate_name (c ∷ rest) ≡ none → IsName (c ∷ rest)
  unfolding validate_name
  sound h = elim (Bool-cases (ltb (suc (length rest)) 2)) [
    | inl short ↦ absurd (some-none (rw short at h))
    | inr long ↦ elim (Bool-cases (c == slash)) [
      | inr other ↦ absurd (some-none (rw (long, other) at h))
      | inl first ↦ elim (Bool-cases (ltb max_shm_name_len (suc (length rest)))) [
        | inl over ↦ absurd (some-none (rw (long, first, over) at h))
        | inr under ↦ elim (Bool-cases (has_slash rest)) [
          | inl more ↦ absurd (some-none (rw (long, first, under, more) at h))
          | inr none_more ↦ (
            (==_iff c slash).0 first,
            omega (arith, ltb-not _ _ long),
            omega (arith, ltb-not _ _ under),
            forth rest none_more,
          )
        ]
      ]
    ]
  ]

-- `validateName` lets a name through exactly when it is a slash and then one to thirty bytes that
-- are no slash.
pub validate_name_iff : (name : List ℕ) → (validate_name name ≡ none) ↔ IsName name
unfolding validate_name
validate_name_iff [] = (λ h. absurd (some-none h), λ h. absurd h)
validate_name_iff (c ∷ rest) = (sound c rest, accept c rest)

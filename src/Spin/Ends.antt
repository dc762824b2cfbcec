-- ===== src/Spin/Ends.antt =====
-- How the spinning calls of include/shmspsc/ShmSpscQueue.h end.
use shm_spsc.Base.{
  ℕ, suc, ◌+◌, ◌-◌, ◌<◌, ◌≤◌, ◌^◌, ◌≡◌, refl, sym, ap, Bool, true, false, not, ◌&&◌, Option, some,
  List, [], ◌∷◌, leb, u32, none, ◌∙◌, ==_iff, length, arith, Bool-cases, inl, inr, get_elem?, ◌==◌,
}
use native.Mathlib.Nat.{mod-eq_of_lt}
use shm_spsc.Layout.{Role}
use shm_spsc.Ring.{Handle, Shared, try_push, try_pop, front, empty, next_index}
use shm_spsc.Spin.{Turn, alive_at, spin_push, spin_pop}

some-inj {ℓ} : {B : Type ℓ} {a b : B} → some a ≡ some b → a ≡ b
some-inj e = cc

not_both : true ≡ false → ⊥
not_both e = cc

both : (a b : Bool) → (not a && b) ≡ true → (a ≡ false) × (b ≡ true)
both true b q = cc
both false b q = (refl, q)

module _ {ℓ} {A : Type ℓ} where
  try_push-role : (v : A) (h : Handle) (s : Shared A) → (try_push v h s).1.role ≡ h.role
  unfolding try_push
  try_push-role v h s =
      let next = next_index h.capacity s.ctrl.write_idx in
      elim (Bool-cases (next == h.read_idx_cache)) [
        | inr miss ↦ rw miss refl
        | inl hit ↦ elim (Bool-cases (next == s.ctrl.read_idx)) [
          | inl full ↦ rw (hit, full) refl
          | inr room ↦ rw (hit, room) refl
        ]
      ]

  -- The process in the peer's slot is gone at every turn.
  abbrev pub AllGone : Role → List (Turn A) → Type 0
  AllGone role [] = Unit
  AllGone role (t ∷ turns) = (alive_at t.asked role ≡ false) × AllGone role turns

  -- What a false answer of `push` rests on, at one of the turns.
  abbrev pub GaveUp : A → Role → List (Turn A) → Shared A → Type ℓ
  GaveUp v role turns s =
      (i : ℕ) × (t : Turn A) × (h : Handle) × (get_elem? turns i ≡ some t)
      × (s ≡ t.asked.shared)
      × (alive_at t.asked role ≡ false)
      × ((try_push v h t.tried).0 ≡ false)

  -- With a peer that is gone, `push` ends within `peerCheckSpins + 1` turns, whatever it meets there.
  pub spin_push_ends :
      (limit : ℕ) (v : A) (h : Handle) (spins : ℕ) (turns : List (Turn A))
      → limit < 2 ^ 32 - 1
      → spins ≤ limit
      → limit + 1 ≤ spins + length turns
      → AllGone h.role turns
      → (r : Bool × Handle × Shared A) × (spin_push limit v h spins turns ≡ some r)
  unfolding spin_push
  spin_push_ends limit v h spins [] small le long gone = absurd (omega arith)
  spin_push_ends limit v h spins (t ∷ turns) small le long (dead, gone) =
      let role = try_push-role v h t.tried in
      elim (Bool-cases (try_push v h t.tried).0) [
        | inl pushed ↦ rw pushed (_, refl)
        | inr refused ↦ elim (Bool-cases (leb limit spins)) [
          | inl check ↦ rw (refused, check, role, dead) (_, refl)
          | inr early ↦
              let lt : spins < limit = not_leb limit spins early in
              let e : u32 (spins + 1) ≡ spins + 1 = mod-eq_of_lt (omega arith) in
              rw (refused, early, e)
                (spin_push_ends limit v (try_push v h t.tried).1 (spins + 1) turns small
                  (omega arith) (omega arith) (rw role gone))
        ]
      ]
    where
      not_leb : (a b : ℕ) → leb a b ≡ false → b < a
      not_leb a b e = ground arith

  later :
      (v : A) (role : Role) (t : Turn A) (turns : List (Turn A)) (s : Shared A)
      → GaveUp v role turns s
      → GaveUp v role (t ∷ turns) s
  later v role t turns s (i, u, h, at, e, dead, refused) = (suc i, u, h, at, e, dead, refused)

  -- `push` returns false only at a turn where its `try_push` was refused and its peer was gone.
  pub spin_push_gives_up :
      (limit : ℕ) (v : A) (h h' : Handle) (spins : ℕ) (turns : List (Turn A)) (s : Shared A)
      → spin_push limit v h spins turns ≡ some (false, h', s)
      → GaveUp v h.role turns s
  unfolding spin_push
  spin_push_gives_up limit v h h' spins [] s e = absurd (cc)
  spin_push_gives_up limit v h h' spins (t ∷ turns) s e =
      let role = try_push-role v h t.tried in
      let h1 = (try_push v h t.tried).1 in
      elim (Bool-cases (try_push v h t.tried).0) [
        | inl pushed ↦ absurd (not_both (ap (λ q. q.0) (some-inj (rw pushed at e))))
        | inr refused ↦ elim (Bool-cases (leb limit spins)) [
          | inr early ↦ later v h.role t turns s (
              rw (sym role) (
                spin_push_gives_up limit v h1 h' (u32 (spins + 1)) turns s
                  (rw (refused, early) at e)))
          | inl check ↦ elim (Bool-cases (alive_at t.asked h1.role)) [
            | inl up ↦ later v h.role t turns s (
                rw (sym role)
                  (spin_push_gives_up limit v h1 h' 1 turns s (rw (refused, check, up) at e)))
            | inr dead ↦ (
              0,
              t,
              h,
              refl,
              sym (ap (λ q. q.2) (some-inj (rw (refused, check, dead) at e))),
              rw (sym role) dead,
              refused,
            )
          ]
        ]
      ]

  pub try_pop-role : (h : Handle) (s : Shared A) → (try_pop h s).2.role ≡ h.role
  unfolding try_pop front
  try_pop-role h s = elim (Bool-cases (s.ctrl.read_idx == h.write_idx_cache)) [
    | inr miss ↦ rw miss refl
    | inl hit ↦ elim (Bool-cases (s.ctrl.read_idx == s.ctrl.write_idx)) [
      | inl dry ↦ rw (hit, dry) refl
      | inr wet ↦ rw (hit, wet) refl
    ]
  ]

  -- A peer that is gone stores no more: from a moment on at which it is gone, the write index is
  -- `final`.
  abbrev pub StaysAt : Role → (final : ℕ) → List (Turn A) → Type 0
  StaysAt role final [] = Unit
  StaysAt role final (t ∷ turns) =
      (alive_at t.asked role ≡ false → t.looked.shared.ctrl.write_idx ≡ final)
      × StaysAt role final turns

  -- At one of the turns the peer was gone, and all that it had ever published has been popped.
  abbrev pub Finished : Role → (final : ℕ) → List (Turn A) → Option A → Shared A → Type ℓ
  Finished role final turns out s =
      (i : ℕ) × (t : Turn A) × (get_elem? turns i ≡ some t)
      × (alive_at t.asked role ≡ false)
      × (s ≡ t.looked.shared)
      × (s.ctrl.read_idx ≡ final)
      × (out ≡ none)

  Finished-later :
      (role : Role) (final : ℕ) (t : Turn A) (turns : List (Turn A)) (out : Option A) (s : Shared A)
      → Finished role final turns out s
      → Finished role final (t ∷ turns) out s
  Finished-later role final t turns out s (i, u, at, dead, e, all, nothing) =
      (suc i, u, at, dead, e, all, nothing)

  drained_lem : (m : Shared A) → empty m ≡ true → m.ctrl.write_idx ≡ m.ctrl.read_idx
  unfolding empty
  drained_lem m q = (==_iff _ _).0 q

  Finished-here :
      (role : Role) (final : ℕ) (t : Turn A) (turns : List (Turn A)) (out : Option A) (s : Shared A)
      → (not (alive_at t.asked role) && empty t.looked.shared) ≡ true
      → (alive_at t.asked role ≡ false → t.looked.shared.ctrl.write_idx ≡ final)
      → t.looked.shared ≡ s
      → out ≡ none
      → Finished role final (t ∷ turns) out s
  Finished-here role final t turns out s leave still same nothing =
      let (dead, dry) = both _ _ leave in
      let all = sym (drained_lem t.looked.shared dry) ∙ still dead in
      (0, t, refl, dead, sym same, rw (sym same) all, nothing)

  -- Where a peer that is gone stores no more, and leaves the write index at `final`: a `pop` that
  -- returns false does so at a turn where its peer was gone, gives no element, and the read index is
  -- `final` then, so that all that the peer had ever published has been popped.
  pub spin_pop_gives_up :
      (limit : ℕ) (h h' : Handle) (spins final : ℕ) (turns : List (Turn A)) (out : Option A)
      (s : Shared A)
      → StaysAt h.role final turns
      → spin_pop limit h spins turns ≡ some (false, out, h', s)
      → Finished h.role final turns out s
  unfolding spin_pop
  spin_pop_gives_up limit h h' spins final [] out s silent e = absurd (cc)
  spin_pop_gives_up limit h h' spins final (t ∷ turns) out s (still, silent) e =
      let role = try_pop-role h t.tried in
      let h1 = (try_pop h t.tried).2 in
      let silent' : StaysAt h1.role final turns = rw role silent in
      let gone = not (alive_at t.asked h1.role) && empty t.looked.shared in
      elim (Bool-cases (try_pop h t.tried).0) [
        | inl popped ↦ absurd (not_both (ap (λ q. q.0) (some-inj (rw popped at e))))
        | inr refused ↦ elim (Bool-cases (leb limit spins)) [
          | inr early ↦ Finished-later h.role final t turns out s (
              rw (sym role) (
                spin_pop_gives_up limit h1 h' (u32 (spins + 1)) final turns out s silent'
                  (rw (refused, early) at e)))
          | inl check ↦ elim (Bool-cases gone) [
            | inr stay ↦ Finished-later h.role final t turns out s (
                rw (sym role) (
                  spin_pop_gives_up limit h1 h' 1 final turns out s silent'
                    (rw (refused, check, stay) at e)))
            | inl leave ↦
                let done = some-inj (rw (refused, check, leave) at e) in
                Finished-here h.role final t turns out s (rw role at leave) still
                  (ap (λ q. q.3) done) (sym (ap (λ q. q.1) done))
          ]
        ]
      ]

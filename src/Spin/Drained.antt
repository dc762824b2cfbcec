-- ===== src/Spin/Drained.antt =====
-- How the spinning `pop` of include/shmspsc/ShmSpscQueue.h ends when its peer is gone.
use shm_spsc.Base.{
  ℕ, ◌+◌, ◌-◌, ◌<◌, ◌≤◌, ◌^◌, ◌≡◌, refl, Bool, true, false, Option, some, List, [], ◌∷◌, leb, u32,
  length, arith, Bool-cases, inl, inr,
}
use native.Mathlib.Nat.{mod-eq_of_lt}
use shm_spsc.Layout.{Role}
use shm_spsc.Ring.{Handle, Shared, try_pop, empty}
use shm_spsc.Spin.{Turn, alive_at, spin_pop}
use shm_spsc.Spin.Ends.{try_pop-role}

module _ {ℓ} {A : Type ℓ} where
  -- The process in the peer's slot is gone at every turn, and has left nothing.
  abbrev pub AllDry : Role → List (Turn A) → Type 0
  AllDry role [] = Unit
  AllDry role (t ∷ turns) =
      (alive_at t.asked role ≡ false) × (empty t.looked.shared ≡ true) × AllDry role turns

  -- With a peer that is gone and an empty queue `pop` ends within `peerCheckSpins + 1` turns.
  pub spin_pop_ends :
      (limit : ℕ) (h : Handle) (spins : ℕ) (turns : List (Turn A))
      → limit < 2 ^ 32 - 1
      → spins ≤ limit
      → limit + 1 ≤ spins + length turns
      → AllDry h.role turns
      → (r : Bool × Option A × Handle × Shared A) × (spin_pop limit h spins turns ≡ some r)
  unfolding spin_pop
  spin_pop_ends limit h spins [] small le long gone = absurd (omega arith)
  spin_pop_ends limit h spins (t ∷ turns) small le long (dead, dry, gone) =
      let role = try_pop-role h t.tried in
      elim (Bool-cases (try_pop h t.tried).0) [
        | inl popped ↦ rw popped (_, refl)
        | inr refused ↦ elim (Bool-cases (leb limit spins)) [
          | inl check ↦ rw (refused, check, role, dead, dry) (_, refl)
          | inr early ↦
              let lt : spins < limit = not_leb limit spins early in
              let e : u32 (spins + 1) ≡ spins + 1 = mod-eq_of_lt (omega arith) in
              rw (refused, early, e)
                (spin_pop_ends limit (try_pop h t.tried).2 (spins + 1) turns small (omega arith)
                  (omega arith) (rw role gone))
        ]
      ]
    where
      not_leb : (a b : ℕ) → leb a b ≡ false → b < a
      not_leb a b e = ground arith

-- ===== src/Spin.antt =====
-- include/shmspsc/ShmSpscQueue.h: the calls that spin, `push` and `pop` with an element.
pub mod Ends
pub mod Drained
use shm_spsc.Base.{
  ℕ, ◌+◌, Bool, true, false, not, ◌&&◌, Option, none, some, List, [], ◌∷◌, leb, if◌then◌else◌, u32,
}
use shm_spsc.Layout.{Role}
use shm_spsc.Ring.{Handle, Shared, try_push, try_pop, empty}
use shm_spsc.Claim.{Kill, peer_alive}

-- The shared memory and the processes at one time.
pub record Moment {ℓ} (A : Type ℓ) : Type ℓ where
  pub shared : Shared A
  pub kill : Kill

-- What one turn of the loop meets, in this order: the shared memory when it tries, the moment at which
-- `peerAlive` looks for the peer, and the moment at which `empty` loads the indices (only `pop` does).
-- Between them the peer may do anything.
pub record Turn {ℓ} (A : Type ℓ) : Type ℓ where
  pub tried : Shared A
  pub asked : Moment A
  pub looked : Moment A

-- `peerAlive()` at a moment
abbrev pub alive_at {ℓ} : {A : Type ℓ} → Moment A → Role → Bool
alive_at m role = peer_alive m.kill role m.shared.ctrl

module _ {ℓ} {A : Type ℓ} where
  -- The loop of `push`, with `spins` on the turns that are given; `none`: it spins on.
  unfoldable pub spin_push :
      (peer_check_spins : ℕ)
      → A
      → Handle
      → (spins : ℕ) → List (Turn A)
      → Option (Bool × Handle × Shared A)
  spin_push limit v h spins [] = none
  spin_push limit v h spins (t ∷ turns) =
      let (pushed, h', s) = try_push v h t.tried in
      let rest = spin_push limit v h' (u32 (spins + 1)) turns in
      let fresh = spin_push limit v h' 1 turns in
      if pushed
      then some (true, h', s)
      else if leb limit spins
      then if not (alive_at t.asked h'.role) then some (false, h', t.asked.shared) else fresh
      else rest

  -- The loop of `pop`, with what it writes to `out`.
  unfoldable pub spin_pop :
      (peer_check_spins : ℕ)
      → Handle
      → (spins : ℕ) → List (Turn A)
      → Option (Bool × Option A × Handle × Shared A)
  spin_pop limit h spins [] = none
  spin_pop limit h spins (t ∷ turns) =
      let (popped, out, h', s) = try_pop h t.tried in
      let rest = spin_pop limit h' (u32 (spins + 1)) turns in
      let fresh = spin_pop limit h' 1 turns in
      if popped
      then some (true, out, h', s)
      else if leb limit spins
      then if not (alive_at t.asked h'.role) && empty t.looked.shared
        then some (false, none, h', t.looked.shared)
        else fresh
      else rest

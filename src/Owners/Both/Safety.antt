-- ===== src/Owners/Both/Safety.antt =====
-- The queue of include/shmspsc/ShmSpscQueue.h under handles that contend for both of its slots.
use shm_spsc.Base.{ℕ, ◌+◌, ◌<◌, ◌≡◌, ◌≢◌, Bool, true, List, length, take, get_elem?, some}
use shm_spsc.Base.Int.{ℤ}
use shm_spsc.Ring.{Handle}
use shm_spsc.Claim.Contest.{ClaimPc}
use shm_spsc.Spsc.Pending.{writes, reads}
use shm_spsc.Spsc.Safety.{IsFresh, delivered_prefix, few_between, disjoint}
use shm_spsc.Owners.Both.{Arena, ArenaReach, vacant}
use shm_spsc.Owners.Both.Invariant.{ArenaReach-Inv}

module _ {ℓ} {A : Type ℓ} (cap : ℕ) (pid : ℕ → ℕ) (alone : (i j : ℕ) → pid i ≡ pid j → i ≡ j)
    (positive : (i : ℕ) → 0 < pid i) (slot slot' : ℤ) (alive alive' : ℕ → Bool) where
  module _ {slots : List A} {p c : Handle} (f : IsFresh cap slots p c) where
    -- However handles of distinct processes contend for both roles, become bound, push and pop, give
    -- their slots back and crash, as long as each that becomes bound has loaded no older index of its
    -- peer than the last owner of its role had seen: what has been received is the first elements of
    -- what has been published, fewer than `capacity_` elements are between, and no handle that is
    -- bound and alive as a producer is to write a slot that one that is bound and alive as a consumer
    -- may still read.
    pub roles_safe :
        (a : Arena A)
        → ArenaReach pid (vacant slot slot' alive alive' slots p c) a
        → let s = a.world.system in
          (s.received ≡ take (length s.received) s.sent)
          × (length s.sent < length s.received + cap)
          × ((h g : ℕ)
              → a.world.contest.alive (pid h) ≡ true
              → a.world.contest.pc h ≡ ClaimPc.bound
              → a.contest.alive (pid g) ≡ true
              → a.contest.pc g ≡ ClaimPc.bound
              → (m n i j : ℕ) → get_elem? (writes (a.world.locals h).pc) m ≡ some i
              → get_elem? (reads (a.receivers g).pc) n ≡ some j
              → i ≢ j)
    roles_safe a reach =
        let v = ArenaReach-Inv cap pid alone positive slot slot' alive alive' f reach in
        (
          delivered_prefix v.world.queue,
          few_between v.world.queue,
          λ h g up e up' e'. rw (v.world.owner h up e, v.owner g up' e') (disjoint v.world.queue),
        )

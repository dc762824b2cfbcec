-- ===== src/Claim.antt =====
-- include/shmspsc/ShmSpscQueue.h: the pid slots of the control block: how `bind` claims one, how
-- `detach` gives it back, and what `peerAlive` and `waitForPeer` read there.
pub mod Run
pub mod Contest
pub mod Exclusive
use shm_spsc.Base.{
  ℕ, Bool, true, false, not, ◌&&◌, Option, none, some, List, [], ◌∷◌, ◌==◌, if◌then◌else◌,
}
use shm_spsc.Base.Int.{ℤ, pos, negsuc, eq_int, is_positive}
use shm_spsc.Layout.{Role, ControlBlock}

-- `kill(pid, 0)`: `none` for 0, and `errno` for -1. The system answers it.
abbrev pub Kill : Type 0
Kill = ℤ → Option ℕ

-- `ESRCH`
abbrev pub esrch : ℕ
esrch = 3

abbrev pub answered : Option ℕ → Bool
answered none = true
answered (some e) = not (e == esrch)

unfoldable pub process_alive : Kill → ℤ → Bool
process_alive kill pid = if is_positive pid then answered (kill pid) else false

-- What an iteration of the loop in `bind` finds in `expected`.
pub data Verdict : Type 0 where
  mine conflict vacant : Verdict

unfoldable pub judge : Kill → (self expected : ℤ) → Verdict
judge kill self expected =
    if eq_int expected self
    then Verdict.mine
    else if is_positive expected && process_alive kill expected
    then Verdict.conflict
    else Verdict.vacant

-- `slot.compare_exchange_weak(expected, desired, …)`, where `weak` is a spurious failure: whether it
-- stored, and what slot and `expected` then hold.
unfoldable pub exchange : (weak : Bool) → (slot expected desired : ℤ) → Bool × ℤ × ℤ
exchange weak slot expected desired =
    if eq_int slot expected && not weak then (true, desired, expected) else (false, slot, slot)

pub data Claimed : Type 0 where
  kept : Claimed  -- the slot held this process already
  stored : Claimed  -- the exchange stored this process
  refused : ℤ → Claimed  -- a live process holds the slot

-- One exchange of the loop: what other processes have left in the slot by then, and whether it
-- fails spuriously.
pub record Attempt : Type 0 where
  pub slot : ℤ
  pub weak : Bool

abbrev pub retry : Bool × ℤ × ℤ → (ℤ → Option Claimed) → Option Claimed
retry (true, slot, expected) again = some Claimed.stored
retry (false, slot, expected) again = again expected

abbrev pub decide : ℤ → Verdict → Option Claimed → Option Claimed
decide expected Verdict.mine rest = some Claimed.kept
decide expected Verdict.conflict rest = some (Claimed.refused expected)
decide expected Verdict.vacant rest = rest

-- The loop of `bind`, one attempt an iteration. `none`: it goes on beyond the attempts listed.
unfoldable pub claim : Kill → (self : ℤ) → List Attempt → (expected : ℤ) → Option Claimed
claim kill self [] expected = decide expected (judge kill self expected) none
claim kill self (a ∷ attempts) expected =
    decide expected (judge kill self expected)
      (retry (exchange a.weak a.slot expected self) (claim kill self attempts))

-- The slot that a role owns, and the peer's.
abbrev pub own_pid : Role → ControlBlock → ℤ
own_pid Role.producer c = c.producer_pid
own_pid Role.consumer c = c.consumer_pid

abbrev pub set_own_pid : Role → ℤ → ControlBlock → ControlBlock
set_own_pid Role.producer pid c = record c { producer_pid = pid }
set_own_pid Role.consumer pid c = record c { consumer_pid = pid }

abbrev pub peer_pid : Role → ControlBlock → ℤ
peer_pid Role.producer c = c.consumer_pid
peer_pid Role.consumer c = c.producer_pid

-- `slot.compare_exchange_strong(self, -1, …)`
unfoldable pub give_back : (self slot : ℤ) → ℤ
give_back self slot = (exchange false slot self (negsuc 0)).1

unfoldable pub peer_alive : Kill → Role → ControlBlock → Bool
peer_alive kill role c =
    if eq_int (peer_pid role c) (pos 0) then true else process_alive kill (peer_pid role c)

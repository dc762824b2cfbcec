-- ===== src/Connect/Moves.antt =====
-- The moves of handles in include/shmspsc/ShmSpscQueue.h: each handle lets go once.
use shm_spsc.Base.{◌≡◌, refl, false}
use shm_spsc.Segment.{reset}
use shm_spsc.Ring.{Handle}
use shm_spsc.Attach.{move_from, swap_with, detach}
use shm_spsc.Connect.{Host, leave, assign}

module _ {S : Type 0} (host : Host S) where
  -- The destructors of a handle and of the one that it has been moved to, in either order, do what
  -- that of the handle would have done: its pid slot is given back once, and its memory is unmapped
  -- once. After a move assignment they do that for what the source had, behind what the assignment
  -- has done for what the target had.
  pub moved_once :
      (h o : Handle) (s : S)
      → (let (new, old) = move_from o in
          (leave host old (leave host new s) ≡ leave host o s)
          × (leave host new (leave host old s) ≡ leave host o s))
        × (let (h', o', t) = assign host false h o s in
            (leave host o' (leave host h' t) ≡ leave host o (leave host h s))
            × (leave host h' (leave host o' t) ≡ leave host o (leave host h s)))
  unfolding move_from swap_with assign leave detach reset
  moved_once h o s = ((refl, refl), (refl, refl))

-- ===== src/Segment/Moves.antt =====
-- The moves of include/shmspsc/ShmSegment.h: each mapping is let go of once.
use shm_spsc.Base.{◌≡◌, refl, false}
use shm_spsc.Ring.{Segment}
use shm_spsc.Segment.{Os, reset, destroy, swap, move_from, move_assign}

module _ {S : Type 0} (os : Os S) where
  -- Of a segment and what it has been moved to, in either order, the destructors do what that of the
  -- segment would have done.
  pub move_from_lem :
      (o : Segment) (s : S)
      → let (g, o') = move_from o in
        (destroy os o' (destroy os g s) ≡ destroy os o s)
        × (destroy os g (destroy os o' s) ≡ destroy os o s)
  unfolding move_from swap destroy reset
  move_from_lem o s = (refl, refl)

  -- A move assignment destroys what the target had; what the source had is left to one of the two.
  pub move_assign_lem :
      (g o : Segment) (s : S)
      → let (g', o', t) = move_assign os false g o s in
        destroy os o' (destroy os g' t) ≡ destroy os o (destroy os g s)
  unfolding move_assign swap destroy reset
  move_assign_lem g o s = refl

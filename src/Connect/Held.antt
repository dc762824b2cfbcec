-- ===== src/Connect/Held.antt =====
-- What a segment holds while include/shmspsc/ShmSpscQueue.h works with it, and what lets go of it.
use shm_spsc.Base.{ℕ, ◌≡◌, refl, ◌∙◌, true, false, Option, none, some, List, [], ◌∷◌, ◌++◌}
use shm_spsc.Layout.{ControlBlock}
use shm_spsc.Ring.{Segment}
use shm_spsc.Segment.{reset, nonempty, unmapped}
use shm_spsc.Segment.Laws.{Resources, OsLaws, Keeps}
use shm_spsc.Connect.{Host, drop_segment}

-- Besides the laws of the system calls: a store changes nothing of these, a pause leaves descriptors
-- and mappings alone (the process has them for itself; others may make or remove the object
-- meanwhile), and `munmap` takes the mapping out that it names also where another has been made since.
pub record HostLaws {S : Type 0} (host : Host S) (r : Resources S) (name : List ℕ) : Type 0 where
  pub os_laws : OsLaws host.os r name
  pub stores : (addr : ℕ) (c : ControlBlock) (s : S) → Keeps r name s (host.store addr c s)
  pub pauses : (s : S) → (r.fds (host.pause s) ≡ r.fds s) × (r.maps (host.pause s) ≡ r.maps s)
  pub frees_second :
      (other : ℕ × ℕ) (addr size : ℕ) (s : S) (l : List (ℕ × ℕ))
      → r.maps s ≡ other ∷ (addr, size) ∷ l
      → (r.fds (host.os.munmap addr size s) ≡ r.fds s)
        × (r.maps (host.os.munmap addr size s) ≡ other ∷ l)
        × (r.present name (host.os.munmap addr size s) ≡ r.present name s)

-- The mapping of a segment.
abbrev pub mapping_of : Option ℕ → (size : ℕ) → List (ℕ × ℕ)
mapping_of none size = []
mapping_of (some addr) size = (addr, size) ∷ []

abbrev pub owned : Segment → List (ℕ × ℕ)
owned g = mapping_of g.addr g.size

module _ {S : Type 0} (r : Resources S) (name : List ℕ) where
  -- Of what was there at `s`, and of the mapping of `g`, nothing else is there at `t`.
  abbrev pub Holds : S → Segment → S → Type 0
  Holds s g t =
      (r.fds t ≡ r.fds s) × (r.maps t ≡ owned g ++ r.maps s) × (r.present name t ≡ r.present name s)

  pub Keeps-trans : {s t u : S} → Keeps r name s t → Keeps r name t u → Keeps r name s u
  Keeps-trans (f, m, p) (f', m', p') = (f' ∙ f, m' ∙ m, p' ∙ p)

  pub Holds-Keeps : (g : Segment) {s t u : S} → Holds s g t → Keeps r name t u → Holds s g u
  Holds-Keeps g (f, m, p) (f', m', p') = (f' ∙ f, m' ∙ m, p' ∙ p)

module _ {S : Type 0} (host : Host S) (r : Resources S) (name : List ℕ)
    (laws : HostLaws host r name) where
  unmapped_first :
      (a : Option ℕ) (size : ℕ) (s t : S)
      → r.maps t ≡ mapping_of a size ++ r.maps s
      → (r.fds (unmapped host.os a size t) ≡ r.fds t)
        × (r.maps (unmapped host.os a size t) ≡ r.maps s)
        × (r.present name (unmapped host.os a size t) ≡ r.present name t)
  unmapped_first none size s t e = (refl, e, refl)
  unmapped_first (some addr) size s t e = laws.os_laws.munmaps addr size t (r.maps s) e

  unmapped_second :
      (a : Option ℕ) (size : ℕ) (s t : S) (other : ℕ × ℕ)
      → r.maps t ≡ other ∷ mapping_of a size ++ r.maps s
      → (r.fds (unmapped host.os a size t) ≡ r.fds t)
        × (r.maps (unmapped host.os a size t) ≡ other ∷ r.maps s)
        × (r.present name (unmapped host.os a size t) ≡ r.present name t)
  unmapped_second none size s t other e = (refl, e, refl)
  unmapped_second (some addr) size s t other e = laws.frees_second other addr size t (r.maps s) e

  -- A segment that does not own its object lets go of its mapping.
  pub drop_lem :
      (g : Segment) (s t : S)
      → g.owner ≡ false
      → r.maps t ≡ owned g ++ r.maps s
      → (r.fds (drop_segment host g t) ≡ r.fds t)
        × (r.maps (drop_segment host g t) ≡ r.maps s)
        × (r.present name (drop_segment host g t) ≡ r.present name t)
  unfolding reset
  drop_lem g s t other m = rw other (unmapped_first g.addr g.size s t m)

  -- One that owns it removes the object as well.
  pub drop_own_lem :
      (g : Segment) (s t : S)
      → g.owner ≡ true
      → g.name ≡ name
      → nonempty host.os name ≡ true
      → r.maps t ≡ owned g ++ r.maps s
      → (r.fds (drop_segment host g t) ≡ r.fds t)
        × (r.maps (drop_segment host g t) ≡ r.maps s)
        × (r.present name (drop_segment host g t) ≡ false)
  unfolding reset
  drop_own_lem g s t own same named m =
      let (f', m', p') = unmapped_first g.addr g.size s t m in
      let (f, k, q) = laws.os_laws.unlinks (unmapped host.os g.addr g.size t) in
      rw (own, same, named) (f ∙ f', k ∙ m', q)

  -- What `unlink` leaves of another name, letting go of a segment leaves of it.
  pub drop_other_lem :
      (g : Segment) (s t : S)
      → g.owner ≡ true
      → r.maps t ≡ owned g ++ r.maps s
      → ((u : S) → r.present name (host.os.shm_unlink g.name u) ≡ r.present name u)
      → nonempty host.os g.name ≡ true
      → r.present name (drop_segment host g t) ≡ r.present name t
  unfolding reset
  drop_other_lem g s t own m apart named =
      let (f', m', p') = unmapped_first g.addr g.size s t m in
      rw (own, named) (apart (unmapped host.os g.addr g.size t) ∙ p')

  -- The segment of the iteration before goes when a new one is there.
  pub replace_lem :
      (g new : Segment) (addr : ℕ) (s t : S)
      → g.owner ≡ false
      → new.addr ≡ some addr
      → r.maps t ≡ (addr, new.size) ∷ owned g ++ r.maps s
      → (r.fds (drop_segment host g t) ≡ r.fds t)
        × (r.maps (drop_segment host g t) ≡ owned new ++ r.maps s)
        × (r.present name (drop_segment host g t) ≡ r.present name t)
  unfolding reset
  replace_lem g new addr s t other at m =
      rw (other, at) (unmapped_second g.addr g.size s t (addr, new.size) m)

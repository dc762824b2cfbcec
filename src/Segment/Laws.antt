-- ===== src/Segment/Laws.antt =====
-- What the code of include/shmspsc/ShmSegment.h relies on of the system calls: which of them open
-- and close descriptors, map and unmap memory, and make and remove the object of a name.
use shm_spsc.Base.{ℕ, ◌≡◌, Bool, true, false, List, ◌∷◌}
use shm_spsc.Base.Int.{ℤ}
use shm_spsc.Segment.{Os, Answer, OpenMode}

-- The open descriptors and the mappings of a process, and whether a name has an object.
pub record Resources (S : Type 0) : Type 0 where
  pub fds : S → List ℕ
  pub maps : S → List (ℕ × ℕ)
  pub present : List ℕ → S → Bool

module _ {S : Type 0} (r : Resources S) (name : List ℕ) where
  abbrev pub Keeps : S → S → Type 0
  Keeps s t = (r.fds t ≡ r.fds s) × (r.maps t ≡ r.maps s) × (r.present name t ≡ r.present name s)

  -- `shm_open` opens a descriptor, or it leaves everything alone.
  abbrev pub Opens : OpenMode → S → Answer ℕ × S → Type 0
  Opens m s (Answer.failed e, t) = Keeps s t
  Opens OpenMode.create_new s (Answer.done fd, t) =
      (r.fds t ≡ fd ∷ r.fds s) × (r.maps t ≡ r.maps s) × (r.present name t ≡ true)
  Opens m s (Answer.done fd, t) =
      (r.fds t ≡ fd ∷ r.fds s) × (r.maps t ≡ r.maps s) × (r.present name t ≡ r.present name s)

  -- `mmap` adds a mapping, or it leaves everything alone.
  abbrev pub Maps : ℕ → S → Answer ℕ × S → Type 0
  Maps size s (Answer.failed e, t) = Keeps s t
  Maps size s (Answer.done addr, t) =
      (r.fds t ≡ r.fds s)
      × (r.maps t ≡ (addr, size) ∷ r.maps s)
      × (r.present name t ≡ r.present name s)

pub record OsLaws {S : Type 0} (os : Os S) (r : Resources S) (name : List ℕ) : Type 0 where
  pub unlinks :
      (s : S)
      → (r.fds (os.shm_unlink name s) ≡ r.fds s)
        × (r.maps (os.shm_unlink name s) ≡ r.maps s)
        × (r.present name (os.shm_unlink name s) ≡ false)
  pub opens : (m : OpenMode) (s : S) → Opens r name m s (os.shm_open name m s)
  pub truncates : (fd : ℕ) (n : ℤ) (s : S) → Keeps r name s (os.ftruncate fd n s).1
  pub stats : (fd : ℕ) (s : S) → Keeps r name s (os.fstat fd s).1
  pub mmaps : (size fd : ℕ) (s : S) → Maps r name size s (os.mmap size fd s)
  pub munmaps :
      (addr size : ℕ) (s : S) (l : List (ℕ × ℕ))
      → r.maps s ≡ (addr, size) ∷ l
      → (r.fds (os.munmap addr size s) ≡ r.fds s)
        × (r.maps (os.munmap addr size s) ≡ l)
        × (r.present name (os.munmap addr size s) ≡ r.present name s)
  pub closes :
      (fd : ℕ) (s : S) (l : List ℕ)
      → r.fds s ≡ fd ∷ l
      → (r.fds (os.close fd s) ≡ l)
        × (r.maps (os.close fd s) ≡ r.maps s)
        × (r.present name (os.close fd s) ≡ r.present name s)

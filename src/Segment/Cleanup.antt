-- ===== src/Segment/Cleanup.antt =====
-- What the calls of include/shmspsc/ShmSegment.h leave behind of descriptors, mappings and objects.
use shm_spsc.Base.{
  ℕ, ◌≡◌, ◌⊎◌, inl, inr, refl, ap, ◌∙◌, true, false, Option, none, some, List, ◌∷◌, ◌==◌,
  Bool-cases,
}
use shm_spsc.Base.Int.{ℤ, is_positive}
use shm_spsc.Base.Results.{Error, Result}
use shm_spsc.Ring.{Segment}
use shm_spsc.Segment.{
  Os, Answer, OpenMode, validate_name, mapped, map_and_close, truncated, created, unless_bad,
  create, measured, opened, open_object, off_t, size_of,
}
use shm_spsc.Segment.Laws.{Resources, OsLaws, Opens, Maps, Keeps}

module _ {S : Type 0} (r : Resources S) (name : List ℕ) where
  -- A failed `create` leaves no descriptor, no mapping and no object, unless it does nothing at all;
  -- one that succeeds leaves one mapping and the object.
  abbrev pub Created : (bytes : ℕ) → S → Result Segment × S → Type 0
  Created bytes s (Result.err e, t) =
      (r.fds t ≡ r.fds s) × (r.maps t ≡ r.maps s) × ((r.present name t ≡ false) ⊎ (t ≡ s))
  Created bytes s (Result.ok g, t) =
      (r.fds t ≡ r.fds s)
      × (r.present name t ≡ true)
      × (addr : ℕ) × (g ≡ record { addr = some addr; size = bytes; owner = true; name = name })
      × (r.maps t ≡ (addr, bytes) ∷ r.maps s)

  abbrev pub Opened : S → Result Segment × S → Type 0
  Opened s (Result.err e, t) = Keeps r name s t
  Opened s (Result.ok g, t) =
      (r.fds t ≡ r.fds s)
      × (r.present name t ≡ r.present name s)
      × (addr bytes : ℕ) × (g
          ≡ record { addr = some addr; size = bytes; owner = false; name = name })
      × (r.maps t ≡ (addr, bytes) ∷ r.maps s)

module _ {S : Type 0} (os : Os S) (r : Resources S) (name : List ℕ) (laws : OsLaws os r name) where
  -- From a state with the descriptor open and the object there.
  mapped-Created :
      (s t : S) (fd bytes : ℕ) (o : Answer ℕ × S)
      → r.fds t ≡ fd ∷ r.fds s
      → r.maps t ≡ r.maps s
      → r.present name t ≡ true
      → Maps r name bytes t o
      → Created r name bytes s (mapped os fd name bytes true o)
  mapped-Created s t fd bytes (Answer.failed e, u) f m p (f', m', p') =
      let (cf, cm, cp) = laws.closes fd u (r.fds s) (f' ∙ f) in
      let (uf, um, up) = laws.unlinks (os.close fd u) in (uf ∙ cf, um ∙ cm ∙ m' ∙ m, inl up)
  mapped-Created s t fd bytes (Answer.done addr, u) f m p (f', m', p') =
      let (cf, cm, cp) = laws.closes fd u (r.fds s) (f' ∙ f) in
      (cf, cp ∙ p' ∙ p, addr, refl, cm ∙ m' ∙ ap (◌∷◌ (addr, bytes)) m)

  truncated-Created :
      (s t : S) (fd bytes : ℕ) (o : Answer Unit × S)
      → r.fds t ≡ fd ∷ r.fds s
      → r.maps t ≡ r.maps s
      → r.present name t ≡ true
      → Keeps r name t o.1
      → Created r name bytes s (truncated os fd name bytes o)
  unfolding map_and_close
  truncated-Created s t fd bytes (Answer.failed e, u) f m p (f', m', p') =
      let (cf, cm, cp) = laws.closes fd u (r.fds s) (f' ∙ f) in
      let (uf, um, up) = laws.unlinks (os.close fd u) in (uf ∙ cf, um ∙ cm ∙ m' ∙ m, inl up)
  truncated-Created s t fd bytes (Answer.done x, u) f m p (f', m', p') =
      mapped-Created s u fd bytes (os.mmap bytes fd u) (f' ∙ f) (m' ∙ m) (p' ∙ p)
        (laws.mmaps bytes fd u)

  created-Created :
      (s t : S) (bytes : ℕ) (o : Answer ℕ × S)
      → r.fds t ≡ r.fds s
      → r.maps t ≡ r.maps s
      → r.present name t ≡ false
      → Opens r name OpenMode.create_new t o
      → Created r name bytes s (created os name bytes o)
  created-Created s t bytes (Answer.failed e, u) f m p (f', m', p') = (f' ∙ f, m' ∙ m, inl (p' ∙ p))
  created-Created s t bytes (Answer.done fd, u) f m p (f', m', p') =
      truncated-Created s u fd bytes (os.ftruncate fd (off_t bytes) u) (f' ∙ ap (◌∷◌ fd) f) (m' ∙ m)
        p' (laws.truncates fd (off_t bytes) u)

  unless_bad-Created :
      (s : S) (bytes : ℕ) (e : Option Error) (o : Result Segment × S)
      → Created r name bytes s o
      → Created r name bytes s (unless_bad os e o s)
  unless_bad-Created s bytes none o h = h
  unless_bad-Created s bytes (some e) o h = (refl, refl, inr refl)

  -- By the laws of the system calls, on every branch of `create` no descriptor stays open. If it
  -- throws, no mapping stays, and no object of the name, unless it has changed nothing; if it
  -- returns, one mapping and the object are there, and the segment owns them.
  pub create_lem : (bytes : ℕ) (s : S) → Created r name bytes s (create os name bytes s)
  unfolding create
  create_lem bytes s =
      let (uf, um, up) = laws.unlinks s in
      let start = os.shm_unlink name s in
      unless_bad-Created s bytes (validate_name name) _ (elim (Bool-cases (bytes == 0)) [
        | inl zero_size ↦ rw zero_size (refl, refl, inr refl)
        | inr some_size ↦ rw some_size (
            created-Created s start bytes (os.shm_open name OpenMode.create_new start) uf um up
              (laws.opens OpenMode.create_new start))
      ])

  mapped-Opened :
      (s t : S) (fd bytes : ℕ) (o : Answer ℕ × S)
      → r.fds t ≡ fd ∷ r.fds s
      → r.maps t ≡ r.maps s
      → r.present name t ≡ r.present name s
      → Maps r name bytes t o
      → Opened r name s (mapped os fd name bytes false o)
  mapped-Opened s t fd bytes (Answer.failed e, u) f m p (f', m', p') =
      let (cf, cm, cp) = laws.closes fd u (r.fds s) (f' ∙ f) in (cf, cm ∙ m' ∙ m, cp ∙ p' ∙ p)
  mapped-Opened s t fd bytes (Answer.done addr, u) f m p (f', m', p') =
      let (cf, cm, cp) = laws.closes fd u (r.fds s) (f' ∙ f) in
      (cf, cp ∙ p' ∙ p, addr, bytes, refl, cm ∙ m' ∙ ap (◌∷◌ (addr, bytes)) m)

  measured-Opened :
      (s t : S) (fd : ℕ) (o : Answer ℤ × S)
      → r.fds t ≡ fd ∷ r.fds s
      → r.maps t ≡ r.maps s
      → r.present name t ≡ r.present name s
      → Keeps r name t o.1
      → Opened r name s (measured os fd name o)
  unfolding map_and_close
  measured-Opened s t fd (Answer.failed e, u) f m p (f', m', p') =
      let (cf, cm, cp) = laws.closes fd u (r.fds s) (f' ∙ f) in (cf, cm ∙ m' ∙ m, cp ∙ p' ∙ p)
  measured-Opened s t fd (Answer.done n, u) f m p (f', m', p') =
      let (cf, cm, cp) = laws.closes fd u (r.fds s) (f' ∙ f) in
      elim (Bool-cases (is_positive n)) [
        | inl big ↦ rw big (
            mapped-Opened s u fd (size_of os n) (os.mmap (size_of os n) fd u) (f' ∙ f) (m' ∙ m)
              (p' ∙ p) (laws.mmaps (size_of os n) fd u))
        | inr small ↦ rw small (cf, cm ∙ m' ∙ m, cp ∙ p' ∙ p)
      ]

  opened-Opened :
      (s : S) (o : Answer ℕ × S)
      → Opens r name OpenMode.read_write s o
      → Opened r name s (opened os name o)
  opened-Opened s (Answer.failed e, u) h = h
  opened-Opened s (Answer.done fd, u) (f, m, p) =
      measured-Opened s u fd (os.fstat fd u) f m p (laws.stats fd u)

  unless_bad-Opened :
      (s : S) (e : Option Error) (o : Result Segment × S)
      → Opened r name s o
      → Opened r name s (unless_bad os e o s)
  unless_bad-Opened s none o h = h
  unless_bad-Opened s (some e) o h = (refl, refl, refl)

  -- By the laws of the system calls, on every branch of `open` no descriptor stays open and the
  -- object stays as it was. If it throws, no mapping stays; if it returns, one does, which the
  -- segment has but does not own.
  pub open_lem : (s : S) → Opened r name s (open_object os name s)
  unfolding open_object
  open_lem s =
      unless_bad-Opened s (validate_name name) _ (
        opened-Opened s (os.shm_open name OpenMode.read_write s) (laws.opens OpenMode.read_write s))

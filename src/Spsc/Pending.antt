-- ===== src/Spsc/Pending.antt =====
-- The slots that a process still has to access before its call returns.
use shm_spsc.Base.{
  ℕ, zero, suc, ◌+◌, ◌<◌, ◌≤◌, ◌≡◌, sym, ap, ◌∙◌, List, [], ◌∷◌, some, arith, length, map,
  get_elem?, length-append,
}
use native.Mathlib.Nat.{add-zero}
use shm_spsc.Spsc.{ProducerPc, ConsumerPc}
use shm_spsc.Spsc.Places.{slot_of, slot_of-add}
use shm_spsc.Spsc.Runs.{spots, places}
use shm_spsc.Spsc.Invariant.{ProducerAt, ConsumerAt}

module _ {ℓ} {A : Type ℓ} where
  -- The slots that the producer is still to write.
  abbrev pub writes : ProducerPc A → List ℕ
  writes (ProducerPc.filling todo batch next) = map (λ (t : ℕ × A). t.0) todo
  writes _ = []

  -- The slots that the consumer may still read; a pointer from `front` is good until `pop`.
  abbrev pub reads : ConsumerPc A → List ℕ
  reads (ConsumerPc.holding r) = r ∷ []
  reads (ConsumerPc.looked r out) = r ∷ []
  reads (ConsumerPc.draining todo out next) = todo
  reads _ = []

module _ (cap : ℕ) (some_slot : 0 < cap) where
  places-get :
      (p n m j : ℕ)
      → get_elem? (places cap (slot_of cap p) n) m ≡ some j
      → (j ≡ slot_of cap (p + m)) × (m < n)
  unfolding places
  places-get p zero m j h = cc
  places-get p (suc n) zero j h = (ground (arith, add-zero p), omega arith)
  places-get p (suc n) (suc m) j h =
      let step = slot_of-add cap some_slot p 1 some_slot in
      let (e, lt) = places-get (p + 1) n m j (rw step h) in
      (e ∙ ap (slot_of cap) (omega arith), omega arith)

  spots-get {ℓ} :
      {A : Type ℓ} (p : ℕ) (xs : List A) (m i : ℕ)
      → get_elem? (map (λ (t : ℕ × A). t.0) (spots cap (slot_of cap p) xs)) m ≡ some i
      → (i ≡ slot_of cap (p + m)) × (m < length xs)
  unfolding spots
  spots-get p [] m i h = cc
  spots-get p (x ∷ xs) zero i h = (ground (arith, add-zero p), omega arith)
  spots-get p (x ∷ xs) (suc m) i h =
      let step = slot_of-add cap some_slot p 1 some_slot in
      let (e, lt) = spots-get (p + 1) xs m i (rw step h) in
      (e ∙ ap (slot_of cap) (omega arith), omega arith)

some-inj : {i j : ℕ} → some i ≡ some j → j ≡ i
some-inj h = cc

module _ {ℓ} {A : Type ℓ} (cap : ℕ) (some_slot : 0 < cap) where
  -- A slot that is still to be written is that of a position not yet published, below the limit.
  pub writes_at :
      (w lim : ℕ) (written : List A) (pc : ProducerPc A) (m i : ℕ)
      → ProducerAt cap w lim written pc
      → get_elem? (writes pc) m ≡ some i
      → (q : ℕ) × (i ≡ slot_of cap q) × (w ≤ q) × (q < lim)
  writes_at w lim written ProducerPc.idle m i a h = cc
  writes_at w lim written (ProducerPc.checking x k next) m i a h = cc
  writes_at w lim written (ProducerPc.recounting src n k) m i a h = cc
  writes_at w lim written (ProducerPc.filling todo batch next) m i (rest, b, t, nx, lt) h =
      let (e, le) = spots-get cap some_slot (w + length written) rest m i (rw (sym t) h) in
      (
        w + length written + m,
        e,
        omega arith,
        omega (arith, ap length b, length-append written rest),
      )

  -- A slot that may still be read is that of a position not yet popped and known to be published.
  pub reads_at :
      (r lim : ℕ) (sent : List A) (pc : ConsumerPc A) (m j : ℕ)
      → ConsumerAt cap r lim sent pc
      → get_elem? (reads pc) m ≡ some j
      → (q : ℕ) × (j ≡ slot_of cap q) × (r ≤ q) × (q < lim)
  reads_at r lim sent ConsumerPc.idle m j a h = cc
  reads_at r lim sent (ConsumerPc.checking i) m j a h = cc
  reads_at r lim sent (ConsumerPc.holding i) zero j (e, lt, _) h =
      (r, some-inj h ∙ e, omega arith, lt)
  reads_at r lim sent (ConsumerPc.holding i) (suc m) j (e, lt, _) h = cc
  reads_at r lim sent (ConsumerPc.looked i out) zero j (e, lt, _) h =
      (r, some-inj h ∙ e, omega arith, lt)
  reads_at r lim sent (ConsumerPc.looked i out) (suc m) j (e, lt, _) h = cc
  reads_at r lim sent (ConsumerPc.recounting n i) m j a h = cc
  reads_at r lim sent (ConsumerPc.draining todo out next) m j (o, t, nx, le) h =
      let (e, lt) = places-get cap some_slot (r + length out) (length todo) m j (rw (sym t) h) in
      (r + length out + m, e, omega arith, omega arith)

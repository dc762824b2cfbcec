-- ===== src/Ring/Single.antt =====
-- `try_push`, `front`, `pop` and `try_pop` are those of the bounded queue, however stale the caches.
use shm_spsc.Base.{
  ℕ, suc, ◌+◌, ◌<◌, ◌≡◌, ◌≢◌, sym, inl, inr, Bool-cases, eq→==, ne→==, true, false, none, some, [],
  ◌∷◌, ◌++◌, ◌==◌, if◌then◌else◌, arith, length-set, get_elem?,
}
use shm_spsc.Ring.{
  Handle, Shared, next_index, refresh_read, refresh_write, put_one, store_read, try_push, front,
  pop,
}
use shm_spsc.Ring.Index.{
  used, used-lt, advance, advance-lt, advance-used, next_index_lem, used-advance_write,
  used-advance_read, next-ne-read, used-eq-zero, used-ne-zero, next_of_full, next_of_room,
}
use shm_spsc.Ring.Window.{window, window-set, window-suc}
use shm_spsc.Ring.Invariant.{IsRing, IsWriter, IsReader, contents, count, refresh_write-IsReader}

module _ {ℓ} {A : Type ℓ} {s : Shared A} (v : IsRing s) where
  abbrev cap : ℕ
  cap = s.ctrl.capacity

  abbrev w : ℕ
  w = s.ctrl.write_idx

  abbrev r : ℕ
  r = s.ctrl.read_idx

  -- The handle as a successful `try_push` leaves it.
  abbrev pub pushed : Handle → Handle
  pushed h = if advance cap w 1 == h.read_idx_cache then refresh_read h s else h

  next_lem : {k : ℕ} → k ≡ cap → next_index k w ≡ advance cap w 1
  next_lem e = rw e (next_index_lem cap w (omega (arith, v.small)) v.write_in)

  pub try_push_full :
      {h : Handle} (x : A)
      → IsWriter h s.ctrl
      → count s.ctrl + 1 ≡ cap
      → try_push x h s ≡ (false, refresh_read h s, s)
  unfolding try_push
  try_push_full {h} x k full = rw (
    next_lem k.same,
    eq→== _ _ cached,
    eq→== _ _ (next_of_full cap w r v.write_in v.read_in full),
  )
    where
      cached : advance cap w 1 ≡ h.read_idx_cache
      cached =
          next_of_full cap w h.read_idx_cache v.write_in k.cache_in
            (omega (arith, k.stale, used-lt cap w h.read_idx_cache v.write_in k.cache_in))

  pub try_push_room :
      {h : Handle} (x : A)
      → IsWriter h s.ctrl
      → count s.ctrl + 1 < cap
      → try_push x h s ≡ (true, pushed h, put_one x w (advance cap w 1) s)
  unfolding try_push
  try_push_room {h} x k room = elim (Bool-cases (advance cap w 1 == h.read_idx_cache)) [
    | inl hit ↦ rw (next_lem k.same, hit, ne→== _ _ other)
    | inr miss ↦ rw (next_lem k.same, miss)
  ]
    where
      other : advance cap w 1 ≢ r
      other = next_of_room cap w r v.write_in v.read_in room

  pub try_push-IsRing : (x : A) → IsRing (put_one x w (advance cap w 1) s)
  try_push-IsRing x = ground (arith, length-set s.slots w x, advance-lt cap w 1)

  pub pushed-IsWriter :
      {h : Handle} (x : A)
      → IsWriter h s.ctrl
      → count s.ctrl + 1 < cap
      → IsWriter (pushed h) (put_one x w (advance cap w 1) s).ctrl
  pushed-IsWriter {h} x k room = ground (
    arith,
    advance-lt cap w 1,
    used-advance_write cap w r 1,
    used-advance_write cap w h.read_idx_cache 1,
    next-ne-read cap w h.read_idx_cache,
  )

  -- What is pushed arrives at the end.
  pub contents-push :
      (x : A)
      → count s.ctrl + 1 < cap
      → contents (put_one x w (advance cap w 1) s) ≡ contents s ++ x ∷ []
  contents-push x room =
      let e : used cap (advance cap w 1) r ≡ suc (count s.ctrl) =
        omega (arith, used-advance_write cap w r 1 v.write_in v.read_in room) in
      rw e (
        window-set cap s.slots x r (count s.ctrl) w v.whole v.read_in (omega arith)
          (sym (advance-used cap w r v.write_in v.read_in)))

  -- A push leaves every popping handle with a cache that is still safe.
  pub pushed-IsReader :
      {c : Handle} (x : A)
      → IsReader c s.ctrl
      → count s.ctrl + 1 < cap
      → IsReader c (put_one x w (advance cap w 1) s).ctrl
  pushed-IsReader {c} x k room = ground (arith, used-advance_write cap w r 1)

  -- The handle as `front` leaves it.
  abbrev pub peeked : Handle → Handle
  peeked h = if r == h.write_idx_cache then refresh_write h s else h

  pub front_empty :
      {h : Handle} → IsReader h s.ctrl → count s.ctrl ≡ 0 → front h s ≡ (none, refresh_write h s)
  unfolding front
  front_empty {h} k e = rw (
    eq→== r h.write_idx_cache
        (sym (used-eq-zero cap h.write_idx_cache r k.cache_in v.read_in (omega (arith, k.stale)))),
    eq→== r w (sym (used-eq-zero cap w r v.write_in v.read_in e)),
  )

  pub front-some :
      {h : Handle} → IsReader h s.ctrl → 0 < count s.ctrl → front h s ≡ (some r, peeked h)
  unfolding front
  front-some {h} k e = elim (Bool-cases (r == h.write_idx_cache)) [
    | inl hit ↦ rw (hit, ne→== r w (used-ne-zero cap w r v.write_in v.read_in e))
    | inr miss ↦ rw miss
  ]

  abbrev pub popped : Shared A
  popped = store_read (advance cap r 1) s

  pub pop_lem : (h : Handle) → h.capacity ≡ cap → pop h s ≡ popped
  unfolding pop
  pop_lem h e = rw (e, next_index_lem cap r (omega (arith, v.small)) v.read_in)

  pub popped-IsRing : IsRing popped
  popped-IsRing = ground (arith, advance-lt cap r 1)

  pub peeked-IsReader :
      {h : Handle} → IsReader h s.ctrl → 0 < count s.ctrl → IsReader (peeked h) popped.ctrl
  peeked-IsReader {h} k e = ground (
    arith,
    advance-lt cap r 1,
    used-advance_read cap w r 1,
    used-advance_read cap h.write_idx_cache r 1,
    used-eq-zero cap h.write_idx_cache r,
  )

  -- A pop leaves every pushing handle with a cache that is still safe.
  pub popped-IsWriter : {p : Handle} → IsWriter p s.ctrl → 0 < count s.ctrl → IsWriter p popped.ctrl
  popped-IsWriter {p} k e = ground (arith, used-advance_read cap w r 1)

  -- What is popped is the oldest element.
  pub contents-pop :
      0 < count s.ctrl
      → (x : A) × (get_elem? s.slots r ≡ some x) × (contents s ≡ x ∷ contents popped)
  contents-pop e =
      let (x, here, split) = window-suc s.slots cap v.whole r (count s.ctrl) v.read_in e in
      (x, here, rw (used-advance_read cap w r 1 v.write_in v.read_in e) split)

  pub contents_empty : count s.ctrl ≡ 0 → contents s ≡ []
  unfolding window
  contents_empty e = rw e

  -- Peeking takes nothing out, and leaves the handle fit for the ring as it is.
  pub peeked-keeps : {h : Handle} → IsReader h s.ctrl → IsReader (peeked h) s.ctrl
  peeked-keeps {h} k = elim (Bool-cases (r == h.write_idx_cache)) [
    | inl hit ↦ rw hit (refresh_write-IsReader v h k.same)
    | inr miss ↦ rw miss k
  ]

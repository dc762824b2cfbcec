-- ===== src/Ring/Batch.antt =====
-- include/shmspsc/ShmSpscQueue.h: the elements that `push_n` moves, with its cache at any staleness.
use shm_spsc.Base.{
  ℕ, ◌+◌, ◌-◌, ◌<◌, ◌≤◌, ◌≡◌, sym, ap, ◌∙◌, inl, inr, Bool-cases, List, ◌++◌, ◌==◌, ltb,
  if◌then◌else◌, arith, length, take, min, length-take_of_le, u64_mod,
}
use shm_spsc.Ring.{Handle, Shared, free_slots, put_run, store_write, push_n, refresh_read}
use shm_spsc.Ring.Index.{
  used, used-lt, advance, advance-lt, advance-zero, advance-used, used-advance_write,
  free_slots_lem,
}
use shm_spsc.Ring.Window.{window, write_run, length-write_run, window-write_run}
use shm_spsc.Ring.Invariant.{
  IsRing, IsWriter, IsReader, contents, count, count-lt, refresh_read-IsWriter,
}
use shm_spsc.Ring.Copies.{put_run_lem}

module _ {ℓ} {A : Type ℓ} {s : Shared A} (v : IsRing s) where
  abbrev cap : ℕ
  cap = s.ctrl.capacity

  abbrev w : ℕ
  w = s.ctrl.write_idx

  abbrev r : ℕ
  r = s.ctrl.read_idx

  -- How many elements there is room for.
  abbrev pub room : ℕ
  room = cap - 1 - count s.ctrl

  small : cap < u64_mod
  small = omega (arith, v.small)

  -- The shared memory after a run of `k` elements of `src` is pushed.
  abbrev pub pushed_run : List A → ℕ → Shared A
  pushed_run src k =
      store_write (advance cap w k) (record s { slots = write_run cap s.slots w (take k src) })

  pub pushed_run-IsRing : (src : List A) (k : ℕ) → k ≤ room → IsRing (pushed_run src k)
  pushed_run-IsRing src k h = record {
    room = v.room;
    small = v.small;
    whole = omega (arith, v.whole, length-write_run cap s.slots w (take k src));
    write_in = advance-lt cap w k v.write_in (omega (arith, v.room));
    read_in = v.read_in;
  }

  pub contents-pushed_run :
      (src : List A) (k : ℕ)
      → k ≤ room
      → k ≤ length src
      → contents (pushed_run src k) ≡ contents s ++ take k src
  contents-pushed_run src k h hs =
      let len = length-take_of_le k src hs in
      let end = advance-used cap w r v.write_in v.read_in in
      rw (used-advance_write cap w r k v.write_in v.read_in (omega (arith, count-lt v))) (
        ap (λ i. window (write_run cap s.slots i (take k src)) cap r (count s.ctrl + k)) (sym end)
        ∙ ap
            (λ m.
              window (write_run cap s.slots (advance cap r (count s.ctrl)) (take k src)) cap r
                (count s.ctrl + m))
            (sym len)
        ∙ window-write_run cap s.slots r (count s.ctrl) (take k src) v.whole v.read_in
            (omega (arith, count-lt v, len)))

  pub pushed_run-IsReader :
      {c : Handle} (src : List A) (k : ℕ)
      → IsReader c s.ctrl
      → k ≤ room
      → IsReader c (pushed_run src k).ctrl
  pushed_run-IsReader {c} src k i h = ground (arith, used-advance_write cap w r k, count-lt v)

  pub pushed_run-IsWriter :
      {h : Handle} (src : List A) (k : ℕ)
      → IsWriter h s.ctrl
      → k + used cap w h.read_idx_cache < cap
      → IsWriter h (pushed_run src k).ctrl
  pushed_run-IsWriter {h} src k i fits =
      ground (arith, used-advance_write cap w r k, used-advance_write cap w h.read_idx_cache k)

  -- The handle as `push_n` leaves it.
  abbrev pub push_n_handle : ℕ → Handle → Handle
  push_n_handle n h =
      if n == 0
      then h
      else if ltb (cap - 1 - used cap w h.read_idx_cache) n
      then refresh_read h s
      else h

  pushed_run_zero : (src : List A) → pushed_run src 0 ≡ s
  unfolding write_run
  pushed_run_zero src = rw (advance-zero cap w v.write_in)

  module _ {h : Handle} (src : List A) (n : ℕ) (k : IsWriter h s.ctrl) (hs : n ≤ length src) where
    cached_free : free_slots h.capacity w h.read_idx_cache ≡ cap - 1 - used cap w h.read_idx_cache
    cached_free = rw k.same (free_slots_lem cap w h.read_idx_cache small v.write_in k.cache_in)

    real_free : free_slots h.capacity w r ≡ room
    real_free = rw k.same (free_slots_lem cap w r small v.write_in v.read_in)

    copied : (m : ℕ) → m ≤ room → m ≤ n → put_run src m h.capacity w s ≡ pushed_run src m
    copied m hm hn =
        rw k.same (put_run_lem v src m w v.write_in (omega (arith, v.room)) (omega arith))

    pub push_n_lem : push_n src n h s ≡ (min n room, push_n_handle n h, pushed_run src (min n room))
    unfolding push_n
    push_n_lem =
        rw (cached_free, real_free)
          (elim (Bool-cases (n == 0)) [
            | inl z ↦
                let e : min n room ≡ 0 = ground arith in
                rw (z, e) (ap (λ t. (0, h, t)) (sym (pushed_run_zero src)))
            | inr any ↦ elim (Bool-cases (ltb (cap - 1 - used cap w h.read_idx_cache) n)) [
              | inl short ↦ elim (Bool-cases (room == 0)) [
                | inl full ↦
                    let e : min n room ≡ 0 = ground arith in
                    rw (any, short, full, e)
                      (ap (λ t. (0, refresh_read h s, t)) (sym (pushed_run_zero src)))
                | inr free ↦ rw (any, short, free, copied (min n room) (omega arith) (omega arith))
              ]
              | inr enough ↦
                  let e : min n (cap - 1 - used cap w h.read_idx_cache) ≡ min n room =
                    ground arith in
                  rw (any, enough, e, copied (min n room) (omega arith) (omega arith))
            ]
          ])

  pub push_n_handle-IsWriter :
      {h : Handle} (src : List A) (n : ℕ)
      → IsWriter h s.ctrl
      → IsWriter (push_n_handle n h) (pushed_run src (min n room)).ctrl
  push_n_handle-IsWriter {h} src n k = elim (Bool-cases (n == 0)) [
    | inl z ↦ rw z (
        pushed_run-IsWriter src (min n room) k
          (ground (arith, used-lt cap w h.read_idx_cache v.write_in k.cache_in)))
    | inr any ↦ elim (Bool-cases (ltb (cap - 1 - used cap w h.read_idx_cache) n)) [
      | inl short ↦
          rw (any, short)
            (pushed_run-IsWriter src (min n room) (refresh_read-IsWriter v h k.same)
              (omega (arith, count-lt v)))
      | inr enough ↦
          rw (any, enough)
            (pushed_run-IsWriter src (min n room) k
              (ground (arith, used-lt cap w h.read_idx_cache v.write_in k.cache_in)))
    ]
  ]

-- ===== src/Ring/Unbatch.antt =====
-- include/shmspsc/ShmSpscQueue.h: the elements that `pop_n` moves, with its cache at any staleness.
use shm_spsc.Base.{
  ℕ, ◌<◌, ◌≤◌, ◌≡◌, sym, ap, ◌∙◌, inl, inr, Bool-cases, [], ◌==◌, ltb, if◌then◌else◌, arith, take,
  drop, min, u64_mod,
}
use shm_spsc.Ring.{Handle, Shared, used_slots, take_run, drop_run, store_read, pop_n, refresh_write}
use shm_spsc.Ring.Index.{used, advance, advance-lt, advance-zero, used-advance_read, used_slots_lem}
use shm_spsc.Ring.Window.{take-window, drop-window}
use shm_spsc.Ring.Invariant.{
  IsRing, IsWriter, IsReader, contents, count, count-lt, refresh_write-IsReader,
}
use shm_spsc.Ring.Copies.{take_run_lem, drop_run_lem}

module _ {ℓ} {A : Type ℓ} {s : Shared A} (v : IsRing s) where
  abbrev cap : ℕ
  cap = s.ctrl.capacity

  abbrev w : ℕ
  w = s.ctrl.write_idx

  abbrev r : ℕ
  r = s.ctrl.read_idx

  small : cap < u64_mod
  small = omega (arith, v.small)

  -- The shared memory after `k` elements are popped.
  abbrev pub popped_run : ℕ → Shared A
  popped_run k = store_read (advance cap r k) s

  pub popped_run-IsRing : (k : ℕ) → k ≤ count s.ctrl → IsRing (popped_run k)
  popped_run-IsRing k h = record {
    room = v.room;
    small = v.small;
    whole = v.whole;
    write_in = v.write_in;
    read_in = advance-lt cap r k v.read_in (omega (arith, count-lt v));
  }

  pub contents-popped_run :
      (k : ℕ) → k ≤ count s.ctrl → contents (popped_run k) ≡ drop k (contents s)
  contents-popped_run k h = rw (used-advance_read cap w r k v.write_in v.read_in h) (
      sym (
        drop-window cap s.slots r k (count s.ctrl) v.read_in v.whole h (omega (arith, count-lt v))))

  pub popped_run-IsWriter :
      {p : Handle} (k : ℕ) → IsWriter p s.ctrl → k ≤ count s.ctrl → IsWriter p (popped_run k).ctrl
  popped_run-IsWriter {p} k i h = ground (arith, used-advance_read cap w r k)

  pub popped_run-IsReader :
      {h : Handle} (k : ℕ)
      → IsReader h s.ctrl
      → k ≤ used cap h.write_idx_cache r
      → IsReader h (popped_run k).ctrl
  popped_run-IsReader {h} k i fits =
      ground (arith, used-advance_read cap w r k, used-advance_read cap h.write_idx_cache r k)

  popped_run_zero : popped_run 0 ≡ s
  popped_run_zero = rw (advance-zero cap r v.read_in)

  -- The handle as `pop_n` leaves it.
  abbrev pub pop_n_handle : ℕ → Handle → Handle
  pop_n_handle n h =
      if n == 0 then h else if ltb (used cap h.write_idx_cache r) n then refresh_write h s else h

  module _ {h : Handle} (n : ℕ) (k : IsReader h s.ctrl) where
    cached_avail : used_slots h.capacity h.write_idx_cache r ≡ used cap h.write_idx_cache r
    cached_avail = rw k.same (used_slots_lem cap h.write_idx_cache r small k.cache_in v.read_in)

    real_avail : used_slots h.capacity w r ≡ count s.ctrl
    real_avail = rw k.same (used_slots_lem cap w r small v.write_in v.read_in)

    read_out : (m : ℕ) → m ≤ count s.ctrl → take_run m h.capacity r s ≡ take m (contents s)
    read_out m hm = rw k.same (
        take_run_lem v m r v.read_in (omega (arith, count-lt v))
        ∙ sym (
            take-window cap s.slots r m (count s.ctrl) v.read_in v.whole hm
              (omega (arith, count-lt v))))

    advanced : (m : ℕ) → m ≤ count s.ctrl → drop_run m h.capacity r s ≡ popped_run m
    advanced m hm = rw k.same (drop_run_lem v m r v.read_in (omega (arith, count-lt v)))

    pub pop_n_lem : pop_n n h s ≡ (
      min n (count s.ctrl),
      take (min n (count s.ctrl)) (contents s),
      pop_n_handle n h,
      popped_run (min n (count s.ctrl)),
    )
    unfolding pop_n
    pop_n_lem =
        rw (cached_avail, real_avail)
          (elim (Bool-cases (n == 0)) [
            | inl z ↦
                let e : min n (count s.ctrl) ≡ 0 = ground arith in
                rw (z, e) (ap (λ t. (0, [], h, t)) (sym popped_run_zero))
            | inr any ↦ elim (Bool-cases (ltb (used cap h.write_idx_cache r) n)) [
              | inl short ↦ elim (Bool-cases (count s.ctrl == 0)) [
                | inl dry ↦
                    let e : min n (count s.ctrl) ≡ 0 = ground arith in
                    rw (any, short, dry, e)
                      (ap (λ t. (0, [], refresh_write h s, t)) (sym popped_run_zero))
                | inr wet ↦ rw (
                  any,
                  short,
                  wet,
                  read_out (min n (count s.ctrl)) (omega arith),
                  advanced (min n (count s.ctrl)) (omega arith),
                )
              ]
              | inr enough ↦
                  let e : min n (used cap h.write_idx_cache r) ≡ min n (count s.ctrl) =
                    ground arith in
                  rw (
                    any,
                    enough,
                    e,
                    read_out (min n (count s.ctrl)) (omega arith),
                    advanced (min n (count s.ctrl)) (omega arith),
                  )
            ]
          ])

    pub pop_n_handle-IsReader : IsReader (pop_n_handle n h) (popped_run (min n (count s.ctrl))).ctrl
    pop_n_handle-IsReader = elim (Bool-cases (n == 0)) [
      | inl z ↦ rw z (popped_run-IsReader (min n (count s.ctrl)) k (ground arith))
      | inr any ↦ elim (Bool-cases (ltb (used cap h.write_idx_cache r) n)) [
        | inl short ↦
            rw (any, short)
              (popped_run-IsReader (min n (count s.ctrl)) (refresh_write-IsReader v h k.same)
                (omega arith))
        | inr enough ↦
            rw (any, enough) (popped_run-IsReader (min n (count s.ctrl)) k (ground arith))
      ]
    ]

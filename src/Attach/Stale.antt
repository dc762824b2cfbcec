-- ===== src/Attach/Stale.antt =====
-- `bind` of include/shmspsc/ShmSpscQueue.h reads the indices before it holds the pid slot. Here the
-- owner before it pushes and pops on between the two, and then detaches.
use shm_spsc.Base.{◌+◌, ◌≡◌, ◌≢◌, refl, sym, ap, ◌∙◌, true, none, some, List, arith, Option, ne→==}
use shm_spsc.Base.Int.{ℤ}
use shm_spsc.Base.Results.{ok}
use shm_spsc.Layout.{Role, ControlBlock}
use shm_spsc.Ring.{Handle, Shared, try_push}
use shm_spsc.Ring.Index.{next_index_lem, next_of_full, used_self}
use shm_spsc.Ring.Invariant.{IsRing, count}
use shm_spsc.Claim.{Kill, Attempt, Claimed, claim, own_pid, set_own_pid}
use shm_spsc.Attach.{bind, bind_result, load_members}
use shm_spsc.Attach.Binding.{pair-inj}

module _ {ℓ} {A : Type ℓ} {s : Shared A} (v : IsRing s) where
  stale_push :
      (x : A) (h : Handle)
      → h.capacity ≡ s.ctrl.capacity
      → h.read_idx_cache ≢ s.ctrl.read_idx
      → count s.ctrl + 1 ≡ s.ctrl.capacity
      → ((try_push x h s).0 ≡ true) × (count (try_push x h s).2.ctrl ≡ 0)
  unfolding try_push
  stale_push x h same stale full =
      let next =
        next_index_lem s.ctrl.capacity s.ctrl.write_idx (omega (arith, v.small)) v.write_in
        ∙ next_of_full s.ctrl.capacity s.ctrl.write_idx s.ctrl.read_idx v.write_in v.read_in full in
      rw (same, next, ne→== s.ctrl.read_idx h.read_idx_cache (λ e. stale (sym e)))
        (refl, used_self s.ctrl.capacity s.ctrl.read_idx)

-- The ring is full, and everything in it is lost by one push.
abbrev pub Loses {ℓ} : {A : Type ℓ} → A → Handle → Shared A → Type 0
Loses x h s = ((try_push x h s).0 ≡ true) × (count (try_push x h s).2.ctrl ≡ 0)

module _ {ℓ} {A : Type ℓ} (s : Shared A) (v : IsRing s) (c : ControlBlock)
    (same : c.capacity ≡ s.ctrl.capacity) (stale : c.read_idx ≢ s.ctrl.read_idx)
    (full : count s.ctrl + 1 ≡ s.ctrl.capacity) where
  first_push :
      (x : A) (self : ℤ) (h h' : Handle) (c' : ControlBlock) (o : Option Claimed)
      → bind_result Role.producer self (load_members Role.producer h c) s.ctrl o
        ≡ some (ok (h', c'))
      → Loses x h' (record s { ctrl = c' })
  unfolding load_members
  first_push x self h h' c' none e = absurd (cc)
  first_push x self h h' c' (some Claimed.kept) e =
      let p = pair-inj e in
      rw (sym (ap (λ q. q.0) p), sym (ap (λ q. q.1) p)) (stale_push v x _ same stale full)
  first_push x self h h' c' (some Claimed.stored) e =
      let p = pair-inj e in
      let w : IsRing (record s { ctrl = set_own_pid Role.producer self s.ctrl }) = record {
        room = v.room;
        small = v.small;
        whole = v.whole;
        write_in = v.write_in;
        read_in = v.read_in;
      } in
      rw (sym (ap (λ q. q.0) p), sym (ap (λ q. q.1) p)) (stale_push w x _ same stale full)
  first_push x self h h' c' (some (Claimed.refused pid)) e = absurd (cc)

  -- On a valid ring: when a producer's `bind` has read the block as `c`, of the ring's capacity, and
  -- the ring is full, with another read index, by the time it holds the pid slot, then the first `try_push` of its handle returns true
  -- and leaves the ring empty: every element in it is lost.
  pub late_bind :
      (x : A) (kill : Kill) (self : ℤ) (attempts : List Attempt) (h h' : Handle) (c' : ControlBlock)
      → bind kill self attempts Role.producer h c s.ctrl ≡ some (ok (h', c'))
      → Loses x h' (record s { ctrl = c' })
  unfolding bind
  late_bind x kill self attempts h h' c' e =
      first_push x self h h' c' (claim kill self attempts (own_pid Role.producer c)) e

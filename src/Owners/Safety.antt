-- ===== src/Owners/Safety.antt =====
-- The queue of include/shmspsc/ShmSpscQueue.h under producers that contend for its slot.
use shm_spsc.Base.{
  ℕ, ◌+◌, ◌<◌, ◌≤◌, ◌≡◌, ◌≢◌, refl, sym, ap, ◌∙◌, inl, inr, Bool, true, List, arith, length, take,
  get_elem?, some,
}
use native.Mathlib.Decide.{ℕ_discrete}
use shm_spsc.Base.Int.{ℤ}
use shm_spsc.Ring.{Handle}
use shm_spsc.Attach.{load_members}
use shm_spsc.Claim.Contest.{ClaimPc, Contest, ClaimStep, ClaimReach, put, start}
use shm_spsc.Claim.Contest
use shm_spsc.Claim.Exclusive.{exclusive}
use shm_spsc.Spsc.{Producer, System}
use shm_spsc.Spsc.Step.{ProducerStep, ConsumerStep}
use shm_spsc.Spsc.Invariant.{Inv}
use shm_spsc.Spsc.Pending.{writes, reads}
use shm_spsc.Spsc.Fill.{ProducerStep-Inv}
use shm_spsc.Spsc.Drain.{ConsumerStep-Inv}
use shm_spsc.Spsc.Safety.{IsFresh, fresh-Inv, delivered_prefix, few_between, disjoint}
use shm_spsc.Spsc.Takeover.{successor-Inv}
use shm_spsc.Owners.{World, BetweenCalls, WorldStep, WorldReach, here, next, unowned}
use shm_spsc.Owners.Ready.{
  bound-cases, lived_before, put_same, put_other, step-read, step-producer, IsReady,
  consumer-IsReady, owner-IsReady,
}

module _ {ℓ} {A : Type ℓ} (cap : ℕ) (pid : ℕ → ℕ) (alone : (i j : ℕ) → pid i ≡ pid j → i ≡ j)
    (positive : (i : ℕ) → 0 < pid i) (slot : ℤ) (alive : ℕ → Bool) where
  -- The one handle that is bound and alive has the producer's state, and every other is ready to
  -- take the role.
  pub record WorldInv (w : World A) : Type ℓ where
    pub queue : Inv cap w.system
    pub fair : ClaimReach pid (start slot alive) w.contest
    pub owner :
        (i : ℕ)
        → w.contest.alive (pid i) ≡ true
        → w.contest.pc i ≡ ClaimPc.bound
        → w.locals i ≡ w.system.producer
    pub ready :
        (i : ℕ)
        → w.contest.alive (pid i) ≡ true
        → w.contest.pc i ≢ ClaimPc.bound
        → IsReady cap w.system.read (w.locals i)

  module _ {w : World A} (v : WorldInv w) where
    -- Behind a step of the contest the handles that are not bound are ready.
    unbound_lem :
        {c : Contest}
        → ClaimStep pid w.contest c
        → BetweenCalls w c
        → (i : ℕ) → c.alive (pid i) ≡ true
        → c.pc i ≢ ClaimPc.bound
        → IsReady cap w.system.read (w.locals i)
    unbound_lem m between i up ne =
        let up' = lived_before (pid i) m up in
        elim (bound-cases (w.contest.pc i)) [
          | inr other ↦ v.ready i up' other
          | inl e ↦
              let same = v.owner i up' e in
              rw same (owner-IsReady v.queue (rw same at (between i e ne)))
        ]

    contend-Inv :
        {c : Contest}
        → ClaimStep pid w.contest c
        → ((i : ℕ) → c.pc i ≡ ClaimPc.bound → w.contest.pc i ≡ ClaimPc.bound)
        → BetweenCalls w c
        → WorldInv (record w { contest = c })
    contend-Inv m none_new between = record {
      queue = v.queue;
      fair = Contest.next v.fair m;
      owner = λ i up e. v.owner i (lived_before (pid i) m up) (none_new i e);
      ready = unbound_lem m between;
    }

    own-Inv :
        {c : Contest} (i : ℕ)
        → ClaimStep pid w.contest c
        → c.alive (pid i) ≡ true
        → c.pc i ≡ ClaimPc.bound
        → w.contest.pc i ≢ ClaimPc.bound
        → BetweenCalls w c
        → w.system.producer.seen ≤ (w.locals i).seen
        → WorldInv (record w { contest = c; system = record w.system { producer = w.locals i } })
    own-Inv {c} i m up e new between newer =
        let fair = Contest.next v.fair m in
        let r = v.ready i (lived_before (pid i) m up) new in
        record {
          queue = successor-Inv v.queue (w.locals i) r.same r.cached r.between newer r.known;
          fair = fair;
          owner = λ k up' e'.
              ap w.locals (exclusive pid alone positive slot alive c fair k i up' up e' e);
          ready = unbound_lem m between;
        }

    act-Inv :
        (i : ℕ) {t : System A}
        → w.contest.alive (pid i) ≡ true
        → w.contest.pc i ≡ ClaimPc.bound
        → ProducerStep (record w.system { producer = w.locals i }) t
        → WorldInv (record w { locals = put w.locals i t.producer; system = t })
    act-Inv i {t} up e m =
        let mine = v.owner i up e in
        let before : Inv cap (record w.system { producer = w.locals i }) = rw mine v.queue in
        record {
          queue = ProducerStep-Inv m before;
          fair = v.fair;
          owner = λ k up' e'.
              let same = exclusive pid alone positive slot alive w.contest v.fair k i up' up e' e in
              rw same (put_same w.locals i t.producer);
          ready = λ k up' ne.
              let other : k ≢ i = λ q. ne (ap w.contest.pc q ∙ e) in
              rw (put_other w.locals i t.producer k other, step-read m) (v.ready k up' ne);
        }

    consume-Inv : {t : System A} → ConsumerStep w.system t → WorldInv (record w { system = t })
    consume-Inv m = record {
      queue = ConsumerStep-Inv m v.queue;
      fair = v.fair;
      owner = λ i up e. v.owner i up e ∙ sym (step-producer m);
      ready = λ i up ne. consumer-IsReady m (v.ready i up ne);
    }

    load-Inv :
        (i : ℕ) (p : Producer A)
        → w.contest.pc i ≡ ClaimPc.outside
        → IsReady cap w.system.read p
        → WorldInv (record w { locals = put w.locals i p })
    load-Inv i p out r = record {
      queue = v.queue;
      fair = v.fair;
      owner = λ k up e.
          put_other w.locals i p k (λ q. outside_bound (sym out ∙ ap w.contest.pc (sym q) ∙ e))
          ∙ v.owner k up e;
      ready = λ k up ne. elim (ℕ_discrete k i) [
        | yes same ↦ rw (same, put_same w.locals i p) r
        | no other ↦ rw (put_other w.locals i p k other) (v.ready k up ne)
      ];
    }
      where
        outside_bound : ClaimPc.outside ≡ ClaimPc.bound → ⊥
        outside_bound e = cc

  pub WorldStep-Inv : {w x : World A} → WorldStep pid w x → WorldInv w → WorldInv x
  unfolding load_members
  WorldStep-Inv {w} (WorldStep.load i ctrl k out same cached known) v =
      load-Inv v i _ out record {
        same = same ∙ v.queue.producer.same;
        known = known;
        cached = cached;
        between = refl;
      }
  WorldStep-Inv (WorldStep.contend m none_new between) v = contend-Inv v m none_new between
  WorldStep-Inv (WorldStep.own i m up e new between newer) v = own-Inv v i m up e new between newer
  WorldStep-Inv (WorldStep.act i up e m) v = act-Inv v i up e m
  WorldStep-Inv (WorldStep.consume m) v = consume-Inv v m

  module _ {slots : List A} {p c : Handle} (f : IsFresh cap slots p c) where
    pub WorldReach-Inv :
        {w : World A} → WorldReach pid (unowned slot alive slots p c) w → WorldInv w
    WorldReach-Inv here = record {
      queue = fresh-Inv f;
      fair = Contest.here;
      owner = λ i up e. refl;
      ready = λ i up ne. record {
        same = f.producer_capacity;
        known = omega arith;
        cached = f.read_cached;
        between = refl;
      };
    }
    WorldReach-Inv (next reach m) = WorldStep-Inv m (WorldReach-Inv reach)

    -- However handles of distinct processes contend for the producer's slot, become bound, push, give
    -- the slot back and crash, as long as each that becomes bound has loaded no older read index than
    -- the last owner had seen: what has been received is the first elements of what has been
    -- published, fewer than `capacity_` elements are between, and no handle that is bound and alive
    -- is to write a slot that the consumer may still read.
    pub owners_safe :
        (w : World A)
        → WorldReach pid (unowned slot alive slots p c) w
        → (w.system.received ≡ take (length w.system.received) w.system.sent)
          × (length w.system.sent < length w.system.received + cap)
          × ((h : ℕ)
              → w.contest.alive (pid h) ≡ true
              → w.contest.pc h ≡ ClaimPc.bound
              → (m n i j : ℕ) → get_elem? (writes (w.locals h).pc) m ≡ some i
              → get_elem? (reads w.system.consumer.pc) n ≡ some j
              → i ≢ j)
    owners_safe w reach =
        let v = WorldReach-Inv reach in
        (
          delivered_prefix v.queue,
          few_between v.queue,
          λ h up e. rw (v.owner h up e) (disjoint v.queue),
        )

-- ===== src/Owners/Both/Invariant.antt =====
-- What every step keeps where handles contend for both slots of include/shmspsc/ShmSpscQueue.h.
use shm_spsc.Base.{ℕ, ◌<◌, ◌≤◌, ◌≡◌, ◌≢◌, refl, sym, ap, ◌∙◌, inl, inr, Bool, true, List, arith}
use native.Mathlib.Decide.{ℕ_discrete}
use shm_spsc.Base.Int.{ℤ}
use shm_spsc.Ring.{Handle}
use shm_spsc.Attach.{load_members}
use shm_spsc.Claim.Contest.{ClaimPc, Contest, ClaimStep, ClaimReach, put, start}
use shm_spsc.Claim.Contest
use shm_spsc.Claim.Exclusive.{exclusive}
use shm_spsc.Spsc.{Consumer, System}
use shm_spsc.Spsc.Step.{ConsumerStep}
use shm_spsc.Spsc.Safety.{IsFresh}
use shm_spsc.Owners.{World, WorldStep}
use shm_spsc.Owners
use shm_spsc.Owners.Ready.{bound-cases, lived_before, put_same, put_other}
use shm_spsc.Owners.Safety.{WorldInv, WorldStep-Inv, WorldReach-Inv}
use shm_spsc.Owners.Both.{
  Arena, ByProducers, BetweenPops, with_consumer, ArenaStep, ArenaReach, here, next, vacant,
}
use shm_spsc.Owners.Both.Waiting.{
  IsWaiting, step-write, world-IsWaiting, world-consumer, owner-IsWaiting, successor,
}

module _ {ℓ} {A : Type ℓ} (cap : ℕ) (pid : ℕ → ℕ) (alone : (i j : ℕ) → pid i ≡ pid j → i ≡ j)
    (positive : (i : ℕ) → 0 < pid i) (slot slot' : ℤ) (alive alive' : ℕ → Bool) where
  abbrev pub Producers : World A → Type ℓ
  Producers w = WorldInv cap pid alone positive slot alive w

  -- The one handle of the consumer's role that is bound and alive has the consumer's state, and every
  -- other is ready to take the role.
  pub record ArenaInv (a : Arena A) : Type ℓ where
    pub world : Producers a.world
    fair : ClaimReach pid (start slot' alive') a.contest
    pub owner :
        (i : ℕ)
        → a.contest.alive (pid i) ≡ true
        → a.contest.pc i ≡ ClaimPc.bound
        → a.receivers i ≡ a.world.system.consumer
    waiting :
        (i : ℕ)
        → a.contest.alive (pid i) ≡ true
        → a.contest.pc i ≢ ClaimPc.bound
        → IsWaiting cap a.world.system.write (a.receivers i)

  -- Another consumer changes nothing for the producers.
  replaced :
      {w : World A} {c : Consumer A}
      → Producers w
      → IsWaiting cap w.system.write c
      → w.system.consumer.seen ≤ c.seen
      → Producers (record w { system = with_consumer w.system c })
  replaced v r newer = record {
    queue = successor v.queue r newer;
    fair = v.fair;
    owner = v.owner;
    ready = v.ready;
  }

  module _ {a : Arena A} (v : ArenaInv a) where
    unbound_lem :
        {c : Contest}
        → ClaimStep pid a.contest c
        → BetweenPops a c
        → (i : ℕ) → c.alive (pid i) ≡ true
        → c.pc i ≢ ClaimPc.bound
        → IsWaiting cap a.world.system.write (a.receivers i)
    unbound_lem m between i up ne =
        let up' = lived_before (pid i) m up in
        elim (bound-cases (a.contest.pc i)) [
          | inr other ↦ v.waiting i up' other
          | inl e ↦
              let same = v.owner i up' e in
              rw same (owner-IsWaiting v.world.queue (rw same at (between i e ne)))
        ]

    producers-Inv :
        {w : World A} (m : WorldStep pid a.world w)
        → ByProducers m
        → ArenaInv (record a { world = w })
    producers-Inv m by = record {
      world = WorldStep-Inv cap pid alone positive slot alive m v.world;
      fair = v.fair;
      owner = λ i up e. v.owner i up e ∙ sym (world-consumer m by);
      waiting = λ i up ne. world-IsWaiting m by (v.waiting i up ne);
    }

    contend-Inv :
        {c : Contest}
        → ClaimStep pid a.contest c
        → ((i : ℕ) → c.pc i ≡ ClaimPc.bound → a.contest.pc i ≡ ClaimPc.bound)
        → BetweenPops a c
        → ArenaInv (record a { contest = c })
    contend-Inv m none_new between = record {
      world = v.world;
      fair = Contest.next v.fair m;
      owner = λ i up e. v.owner i (lived_before (pid i) m up) (none_new i e);
      waiting = unbound_lem m between;
    }

    own-Inv :
        {c : Contest} (i : ℕ)
        → ClaimStep pid a.contest c
        → c.alive (pid i) ≡ true
        → c.pc i ≡ ClaimPc.bound
        → a.contest.pc i ≢ ClaimPc.bound
        → BetweenPops a c
        → a.world.system.consumer.seen ≤ (a.receivers i).seen
        → ArenaInv (record a {
          contest = c;
          world = record a.world { system = with_consumer a.world.system (a.receivers i) };
        })
    own-Inv {c} i m up e new between newer =
        let fair = Contest.next v.fair m in
        record {
          world = replaced v.world (v.waiting i (lived_before (pid i) m up) new) newer;
          fair = fair;
          owner = λ k up' e'.
              ap a.receivers (exclusive pid alone positive slot' alive' c fair k i up' up e' e);
          waiting = unbound_lem m between;
        }

    act-Inv :
        (i : ℕ) {t : System A}
        → a.contest.alive (pid i) ≡ true
        → a.contest.pc i ≡ ClaimPc.bound
        → ConsumerStep (with_consumer a.world.system (a.receivers i)) t
        → ArenaInv (record a {
          receivers = put a.receivers i t.consumer;
          world = record a.world { system = t };
        })
    act-Inv i {t} up e m =
        let mine = v.owner i up e in
        let m' : ConsumerStep a.world.system t = rw mine at m in
        record {
          world = WorldStep-Inv cap pid alone positive slot alive (WorldStep.consume m') v.world;
          fair = v.fair;
          owner = λ k up' e'.
              let same =
                exclusive pid alone positive slot' alive' a.contest v.fair k i up' up e' e in
              rw same (put_same a.receivers i t.consumer);
          waiting = λ k up' ne.
              let other : k ≢ i = λ q. ne (ap a.contest.pc q ∙ e) in
              rw (put_other a.receivers i t.consumer k other, step-write m') (v.waiting k up' ne);
        }

    load-Inv :
        (i : ℕ) (c : Consumer A)
        → a.contest.pc i ≡ ClaimPc.outside
        → IsWaiting cap a.world.system.write c
        → ArenaInv (record a { receivers = put a.receivers i c })
    load-Inv i c out r = record {
      world = v.world;
      fair = v.fair;
      owner = λ k up e.
          put_other a.receivers i c k (λ q. outside_bound (sym out ∙ ap a.contest.pc (sym q) ∙ e))
          ∙ v.owner k up e;
      waiting = λ k up ne. elim (ℕ_discrete k i) [
        | yes same ↦ rw (same, put_same a.receivers i c) r
        | no other ↦ rw (put_other a.receivers i c k other) (v.waiting k up ne)
      ];
    }
      where
        outside_bound : ClaimPc.outside ≡ ClaimPc.bound → ⊥
        outside_bound e = cc

  ArenaStep-Inv : {a x : Arena A} → ArenaStep pid a x → ArenaInv a → ArenaInv x
  unfolding load_members
  ArenaStep-Inv (ArenaStep.by_producers m by) v = producers-Inv v m by
  ArenaStep-Inv (ArenaStep.load i ctrl k out same cached known) v = load-Inv v i _ out record {
    same = same ∙ v.world.queue.consumer.same;
    known = known;
    cached = cached;
    between = refl;
  }
  ArenaStep-Inv (ArenaStep.contend m none_new between) v = contend-Inv v m none_new between
  ArenaStep-Inv (ArenaStep.own i m up e new between newer) v = own-Inv v i m up e new between newer
  ArenaStep-Inv (ArenaStep.act i up e m) v = act-Inv v i up e m

  module _ {slots : List A} {p c : Handle} (f : IsFresh cap slots p c) where
    pub ArenaReach-Inv :
        {a : Arena A} → ArenaReach pid (vacant slot slot' alive alive' slots p c) a → ArenaInv a
    ArenaReach-Inv here = record {
      world = WorldReach-Inv cap pid alone positive slot alive f Owners.here;
      fair = Contest.here;
      owner = λ i up e. refl;
      waiting = λ i up ne. record {
        same = f.consumer_capacity;
        known = omega arith;
        cached = f.write_cached;
        between = refl;
      };
    }
    ArenaReach-Inv (next reach m) = ArenaStep-Inv m (ArenaReach-Inv reach)

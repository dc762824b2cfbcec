-- ===== src/Owners/Both.antt =====
-- include/shmspsc/ShmSpscQueue.h: handles that contend for the consumer's role too, by the same loop
-- of `bind` on the other slot, while those of the producer's role contend for theirs. The two
-- contests have each a record of who is alive: a crash of a process with handles of both roles is
-- two steps.
pub mod Waiting
pub mod Invariant
pub mod Safety
use shm_spsc.Base.{ℕ, ◌≤◌, ◌≡◌, ◌≢◌, Bool, true, List}
use shm_spsc.Base.Int.{ℤ}
use shm_spsc.Layout.{Role, ControlBlock}
use shm_spsc.Ring.{Handle}
use shm_spsc.Attach.{load_members}
use shm_spsc.Claim.Contest.{ClaimPc, Contest, ClaimStep, put, start}
use shm_spsc.Spsc.{ConsumerPc, Consumer, System}
use shm_spsc.Spsc.Step.{ConsumerStep}
use shm_spsc.Owners.{World, WorldStep, unowned}

-- `world` has the producers; `receivers i` is what handle `i` of the consumer's role has for itself.
pub record Arena {ℓ} (A : Type ℓ) : Type ℓ where
  pub world : World A
  pub contest : Contest
  pub receivers : ℕ → Consumer A

-- A step of the world that is none of its consumer.
abbrev pub ByProducers {ℓ} : {A : Type ℓ} {pid : ℕ → ℕ} {w x : World A} → WorldStep pid w x → Type 0
ByProducers (WorldStep.load i ctrl k out same cached known) = Unit
ByProducers (WorldStep.contend m none_new between) = Unit
ByProducers (WorldStep.own i m up e new between newer) = Unit
ByProducers (WorldStep.act i up e m) = Unit
ByProducers (WorldStep.consume m) = ⊥

-- A handle gives the consumer's role back between two calls, and no pointer from `front` is left.
abbrev pub BetweenPops {ℓ} : {A : Type ℓ} → Arena A → Contest → Type ℓ
BetweenPops a c =
    (i : ℕ)
    → a.contest.pc i ≡ ClaimPc.bound
    → c.pc i ≢ ClaimPc.bound
    → (a.receivers i).pc ≡ ConsumerPc.idle

abbrev pub with_consumer {ℓ} : {A : Type ℓ} → System A → Consumer A → System A
with_consumer s c = record s { consumer = c }

pub data ArenaStep {ℓ} {A : Type ℓ} (pid : ℕ → ℕ) (a : Arena A) : Arena A → Type ℓ where
  by_producers :
      {w : World A} (m : WorldStep pid a.world w)
      → ByProducers m
      → ArenaStep pid a (record a { world = w })
  load :
      (i : ℕ) (ctrl : ControlBlock) (k : ℕ)
      → a.contest.pc i ≡ ClaimPc.outside
      → ctrl.capacity ≡ a.world.system.consumer.handle.capacity
      → ctrl.write_idx ≡ a.world.system.write.value k
      → k ≤ a.world.system.write.last
      → ArenaStep pid a (record a {
        receivers = put a.receivers i (record {
          handle = load_members Role.consumer (a.receivers i).handle ctrl;
          pc = ConsumerPc.idle;
          seen = k;
        });
      })
  contend :
      {c : Contest}
      → ClaimStep pid a.contest c
      → ((i : ℕ) → c.pc i ≡ ClaimPc.bound → a.contest.pc i ≡ ClaimPc.bound)
      → BetweenPops a c
      → ArenaStep pid a (record a { contest = c })
  -- Handle `i` becomes bound, and has loaded no older write index than the last owner had seen.
  own :
      {c : Contest} (i : ℕ)
      → ClaimStep pid a.contest c
      → c.alive (pid i) ≡ true
      → c.pc i ≡ ClaimPc.bound
      → a.contest.pc i ≢ ClaimPc.bound
      → BetweenPops a c
      → a.world.system.consumer.seen ≤ (a.receivers i).seen
      → ArenaStep pid a (record a {
        contest = c;
        world = record a.world { system = with_consumer a.world.system (a.receivers i) };
      })
  act :
      (i : ℕ) {t : System A}
      → a.contest.alive (pid i) ≡ true
      → a.contest.pc i ≡ ClaimPc.bound
      → ConsumerStep (with_consumer a.world.system (a.receivers i)) t
      → ArenaStep pid a (record a {
        receivers = put a.receivers i t.consumer;
        world = record a.world { system = t };
      })

pub data ArenaReach {ℓ} {A : Type ℓ} (pid : ℕ → ℕ) (a : Arena A) : Arena A → Type ℓ where
  here : ArenaReach pid a a
  next : {u x : Arena A} → ArenaReach pid a u → ArenaStep pid u x → ArenaReach pid a x

-- No handle of either role is bound yet, nor has loaded anything since the queue was made.
abbrev pub vacant {ℓ} :
    {A : Type ℓ} → (slot slot' : ℤ) → (alive alive' : ℕ → Bool) → List A → Handle → Handle → Arena A
vacant slot slot' alive alive' slots p c = record {
  world = unowned slot alive slots p c;
  contest = start slot' alive';
  receivers = λ i. record { handle = c; pc = ConsumerPc.idle; seen = 0 };
}

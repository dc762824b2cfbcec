-- ===== src/Owners.antt =====
-- include/shmspsc/ShmSpscQueue.h: many handles that contend for the producer's role by the loop of
-- `bind`, each with its own index cache, and the queue that the one that is bound pushes into, while
-- the consumer pops. It joins `Claim.Contest` and `Spsc`.
pub mod Ready
pub mod Safety
pub mod Both
use shm_spsc.Base.{ℕ, ◌≤◌, ◌≡◌, ◌≢◌, Bool, true, List}
use shm_spsc.Base.Int.{ℤ}
use shm_spsc.Layout.{Role, ControlBlock}
use shm_spsc.Ring.{Handle}
use shm_spsc.Attach.{load_members}
use shm_spsc.Claim.Contest.{ClaimPc, Contest, ClaimStep, put, start}
use shm_spsc.Spsc.{ProducerPc, Producer, System}
use shm_spsc.Spsc.Step.{ProducerStep, ConsumerStep, fresh}

-- `locals i` is what handle `i` has for itself; the producer of `system` is the handle that owns
-- the role, or has owned it last.
pub record World {ℓ} (A : Type ℓ) : Type ℓ where
  pub contest : Contest
  pub locals : ℕ → Producer A
  pub system : System A

-- A handle gives the role back between two calls of the queue.
abbrev pub BetweenCalls {ℓ} : {A : Type ℓ} → World A → Contest → Type ℓ
BetweenCalls w c =
    (i : ℕ)
    → w.contest.pc i ≡ ClaimPc.bound
    → c.pc i ≢ ClaimPc.bound
    → (w.locals i).pc ≡ ProducerPc.idle

pub data WorldStep {ℓ} {A : Type ℓ} (pid : ℕ → ℕ) (w : World A) : World A → Type ℓ where
  -- the loads of `bind`
  load :
      (i : ℕ) (ctrl : ControlBlock) (k : ℕ)
      → w.contest.pc i ≡ ClaimPc.outside
      → ctrl.capacity ≡ w.system.producer.handle.capacity
      → ctrl.read_idx ≡ w.system.read.value k
      → k ≤ w.system.read.last
      → WorldStep pid w (record w {
        locals = put w.locals i (record {
          handle = load_members Role.producer (w.locals i).handle ctrl;
          pc = ProducerPc.idle;
          seen = k;
        });
      })
  -- an access to the slot by which no handle becomes bound, or a crash
  contend :
      {c : Contest}
      → ClaimStep pid w.contest c
      → ((i : ℕ) → c.pc i ≡ ClaimPc.bound → w.contest.pc i ≡ ClaimPc.bound)
      → BetweenCalls w c
      → WorldStep pid w (record w { contest = c })
  -- Handle `i` becomes bound, and has loaded no older read index than the last owner had seen.
  own :
      {c : Contest} (i : ℕ)
      → ClaimStep pid w.contest c
      → c.alive (pid i) ≡ true
      → c.pc i ≡ ClaimPc.bound
      → w.contest.pc i ≢ ClaimPc.bound
      → BetweenCalls w c
      → w.system.producer.seen ≤ (w.locals i).seen
      → WorldStep pid w
          (record w { contest = c; system = record w.system { producer = w.locals i } })
  -- A step in a call of a handle that is bound.
  act :
      (i : ℕ) {t : System A}
      → w.contest.alive (pid i) ≡ true
      → w.contest.pc i ≡ ClaimPc.bound
      → ProducerStep (record w.system { producer = w.locals i }) t
      → WorldStep pid w (record w { locals = put w.locals i t.producer; system = t })
  consume : {t : System A} → ConsumerStep w.system t → WorldStep pid w (record w { system = t })

pub data WorldReach {ℓ} {A : Type ℓ} (pid : ℕ → ℕ) (w : World A) : World A → Type ℓ where
  here : WorldReach pid w w
  next : {u x : World A} → WorldReach pid w u → WorldStep pid u x → WorldReach pid w x

-- No handle is bound yet, and none has loaded anything since the queue was made.
abbrev pub unowned {ℓ} : {A : Type ℓ} → (slot : ℤ) → (ℕ → Bool) → List A → Handle → Handle → World A
unowned slot alive slots p c = record {
  contest = start slot alive;
  locals = λ i. record { handle = p; pc = ProducerPc.idle; seen = 0 };
  system = fresh slots p c;
}

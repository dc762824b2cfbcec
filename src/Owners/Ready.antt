-- ===== src/Owners/Ready.antt =====
-- A handle of include/shmspsc/ShmSpscQueue.h that may take the producer's role, and what steps of
-- others leave of that.
use shm_spsc.Base.{ℕ, ◌+◌, ◌≤◌, ◌≡◌, ◌≢◌, ◌⊎◌, refl, sym, ◌∙◌, inl, inr, true, arith, eq→==, ne→==}
use shm_spsc.Claim.Contest.{ClaimPc, Contest, ClaimStep, put}
use shm_spsc.Claim.Exclusive.{was_alive}
use shm_spsc.Spsc.{Index, store, ProducerPc, Producer, System}
use shm_spsc.Spsc.Step.{ProducerStep, ConsumerStep}
use shm_spsc.Spsc.Invariant.{Inv}

pub bound-cases : (pc : ClaimPc) → (pc ≡ ClaimPc.bound) ⊎ (pc ≢ ClaimPc.bound)
bound-cases ClaimPc.outside = inr (λ e. cc)
bound-cases (ClaimPc.judging n) = inr (λ e. cc)
bound-cases (ClaimPc.trying n) = inr (λ e. cc)
bound-cases ClaimPc.bound = inl refl
bound-cases ClaimPc.thrown = inr (λ e. cc)

-- Who lives after a step of the contest has lived before it.
pub lived_before :
    {pid : ℕ → ℕ} {s t : Contest} (n : ℕ) → ClaimStep pid s t → t.alive n ≡ true → s.alive n ≡ true
lived_before n (ClaimStep.load i up e) h = h
lived_before n (ClaimStep.verdict i up e) h = h
lived_before n (ClaimStep.attempt i weak up e) h = h
lived_before n (ClaimStep.detach i up e) h = h
lived_before n (ClaimStep.again i e) h = h
lived_before {s} n (ClaimStep.die m) h = was_alive s.alive m n h

module _ {ℓ} {B : Type ℓ} (f : ℕ → B) (i : ℕ) (b : B) where
  pub put_same : put f i b i ≡ b
  put_same = rw (eq→== i i refl) refl

  pub put_other : (j : ℕ) → j ≢ i → put f i b j ≡ f j
  put_other j ne = rw (ne→== j i ne) refl

module _ {ℓ} {A : Type ℓ} where
  pub step-read : {s t : System A} → ProducerStep s t → t.read ≡ s.read
  step-read (ProducerStep.push x e) = refl
  step-read (ProducerStep.recheck k e lo hi) = refl
  step-read (ProducerStep.push_n src n h e) = refl
  step-read (ProducerStep.recount k e lo hi) = refl
  step-read (ProducerStep.copy e) = refl
  step-read (ProducerStep.publish e) = refl

  pub step-producer : {s t : System A} → ConsumerStep s t → t.producer ≡ s.producer
  step-producer (ConsumerStep.front e) = refl
  step-producer (ConsumerStep.recheck k e lo hi) = refl
  step-producer (ConsumerStep.look e) = refl
  step-producer (ConsumerStep.put_back e) = refl
  step-producer (ConsumerStep.pop e) = refl
  step-producer (ConsumerStep.pop_n n e) = refl
  step-producer (ConsumerStep.recount k e lo hi) = refl
  step-producer (ConsumerStep.copy e) = refl
  step-producer (ConsumerStep.release e) = refl

  pub step-consumer : {s t : System A} → ProducerStep s t → t.consumer ≡ s.consumer
  step-consumer (ProducerStep.push x e) = refl
  step-consumer (ProducerStep.recheck k e lo hi) = refl
  step-consumer (ProducerStep.push_n src n h e) = refl
  step-consumer (ProducerStep.recount k e lo hi) = refl
  step-consumer (ProducerStep.copy e) = refl
  step-consumer (ProducerStep.publish e) = refl

-- A producer between calls whose cache is a store of the read index.
pub record IsReady {ℓ} {A : Type ℓ} (cap : ℕ) (read : Index) (p : Producer A) : Type ℓ where
  pub same : p.handle.capacity ≡ cap
  pub known : p.seen ≤ read.last
  pub cached : p.handle.read_idx_cache ≡ read.value p.seen
  pub between : p.pc ≡ ProducerPc.idle

module _ {ℓ} {A : Type ℓ} {cap : ℕ} where
  stored-IsReady :
      {read : Index} {p : Producer A} (v : ℕ) → IsReady cap read p → IsReady cap (store v read) p
  stored-IsReady {read} {p} v r = record {
    same = r.same;
    known = omega (arith, r.known);
    cached =
        r.cached
        ∙ sym (rw (ne→== p.seen (read.last + 1) (λ e. absurd (omega (arith, r.known, e)))) refl);
    between = r.between;
  }

  pub consumer-IsReady :
      {s t : System A} {p : Producer A}
      → ConsumerStep s t
      → IsReady cap s.read p
      → IsReady cap t.read p
  consumer-IsReady (ConsumerStep.front e) r = r
  consumer-IsReady (ConsumerStep.recheck k e lo hi) r = r
  consumer-IsReady (ConsumerStep.look e) r = r
  consumer-IsReady (ConsumerStep.put_back e) r = r
  consumer-IsReady (ConsumerStep.pop e) r = stored-IsReady _ r
  consumer-IsReady (ConsumerStep.pop_n n e) r = r
  consumer-IsReady (ConsumerStep.recount k e lo hi) r = r
  consumer-IsReady (ConsumerStep.copy e) r = r
  consumer-IsReady (ConsumerStep.release e) r = stored-IsReady _ r

  -- The owner between two calls.
  pub owner-IsReady :
      {s : System A} → Inv cap s → s.producer.pc ≡ ProducerPc.idle → IsReady cap s.read s.producer
  owner-IsReady {s} v e = record {
    same = v.producer.same;
    known = v.producer.seen_in;
    cached = v.producer.cached ∙ sym (v.read_index.placed s.producer.seen v.producer.seen_in);
    between = e;
  }

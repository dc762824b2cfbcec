-- ===== src/Owners/Both/Waiting.antt =====
-- A handle of include/shmspsc/ShmSpscQueue.h that may take the consumer's role, and what steps of
-- others leave of that.
use shm_spsc.Base.{ℕ, ◌+◌, ◌≤◌, ◌≡◌, refl, sym, ◌∙◌, arith, ne→==}
use shm_spsc.Spsc.{Index, store, ConsumerPc, Consumer, System}
use shm_spsc.Spsc.Step.{ProducerStep, ConsumerStep}
use shm_spsc.Spsc.Invariant.{Inv}
use shm_spsc.Spsc.Consume.{shown}
use shm_spsc.Spsc.Drain.{moved}
use shm_spsc.Owners.{World, WorldStep}
use shm_spsc.Owners.Ready.{step-consumer}
use shm_spsc.Owners.Both.{ByProducers, with_consumer}

module _ {ℓ} {A : Type ℓ} where
  pub step-write : {s t : System A} → ConsumerStep s t → t.write ≡ s.write
  step-write (ConsumerStep.front e) = refl
  step-write (ConsumerStep.recheck k e lo hi) = refl
  step-write (ConsumerStep.look e) = refl
  step-write (ConsumerStep.put_back e) = refl
  step-write (ConsumerStep.pop e) = refl
  step-write (ConsumerStep.pop_n n e) = refl
  step-write (ConsumerStep.recount k e lo hi) = refl
  step-write (ConsumerStep.copy e) = refl
  step-write (ConsumerStep.release e) = refl

  pub world-consumer :
      {pid : ℕ → ℕ} {w x : World A} (m : WorldStep pid w x)
      → ByProducers m
      → x.system.consumer ≡ w.system.consumer
  world-consumer (WorldStep.load i ctrl k out same cached known) by = refl
  world-consumer (WorldStep.contend m none_new between) by = refl
  world-consumer (WorldStep.own i m up e new between newer) by = refl
  world-consumer (WorldStep.act i up e m) by = step-consumer m
  world-consumer (WorldStep.consume m) by = absurd by

-- A consumer between calls whose cache is a store of the write index.
pub record IsWaiting {ℓ} {A : Type ℓ} (cap : ℕ) (write : Index) (c : Consumer A) : Type ℓ where
  pub same : c.handle.capacity ≡ cap
  pub known : c.seen ≤ write.last
  pub cached : c.handle.write_idx_cache ≡ write.value c.seen
  pub between : c.pc ≡ ConsumerPc.idle

module _ {ℓ} {A : Type ℓ} {cap : ℕ} where
  stored-IsWaiting :
      {write : Index} {c : Consumer A} (v : ℕ)
      → IsWaiting cap write c
      → IsWaiting cap (store v write) c
  stored-IsWaiting {write} {c} v r = record {
    same = r.same;
    known = omega (arith, r.known);
    cached =
        r.cached
        ∙ sym (rw (ne→== c.seen (write.last + 1) (λ e. absurd (omega (arith, r.known, e)))) refl);
    between = r.between;
  }

  producer-IsWaiting :
      {s t : System A} {c : Consumer A}
      → ProducerStep s t
      → IsWaiting cap s.write c
      → IsWaiting cap t.write c
  producer-IsWaiting (ProducerStep.push x e) r = r
  producer-IsWaiting (ProducerStep.recheck k e lo hi) r = r
  producer-IsWaiting (ProducerStep.push_n src n h e) r = r
  producer-IsWaiting (ProducerStep.recount k e lo hi) r = r
  producer-IsWaiting (ProducerStep.copy e) r = r
  producer-IsWaiting (ProducerStep.publish e) r = stored-IsWaiting _ r

  -- Whatever the producers do.
  pub world-IsWaiting :
      {pid : ℕ → ℕ} {w x : World A} {c : Consumer A} (m : WorldStep pid w x)
      → ByProducers m
      → IsWaiting cap w.system.write c
      → IsWaiting cap x.system.write c
  world-IsWaiting (WorldStep.load i ctrl k out same cached known) by r = r
  world-IsWaiting (WorldStep.contend m none_new between) by r = r
  world-IsWaiting (WorldStep.own i m up e new between newer) by r = r
  world-IsWaiting (WorldStep.act i up e m) by r = producer-IsWaiting m r
  world-IsWaiting (WorldStep.consume m) by r = absurd by

  -- The owner between two calls.
  pub owner-IsWaiting :
      {s : System A}
      → Inv cap s
      → s.consumer.pc ≡ ConsumerPc.idle
      → IsWaiting cap s.write s.consumer
  owner-IsWaiting {s} v e = record {
    same = v.consumer.same;
    known = v.consumer.seen_in;
    cached = v.consumer.cached ∙ sym (v.write_index.placed s.consumer.seen v.consumer.seen_in);
    between = e;
  }

  -- A consumer that waits may take the place of the last one.
  pub successor :
      {s : System A} {c : Consumer A}
      → Inv cap s
      → IsWaiting cap s.write c
      → s.consumer.seen ≤ c.seen
      → Inv cap (with_consumer s c)
  successor {c} v r newer = moved v c record {
    same = r.same;
    seen_in = r.known;
    cached = r.cached ∙ v.write_index.placed c.seen r.known;
    behind = shown v c.seen newer r.known;
    at = rw r.between tt;
  }

-- ===== src/Spsc/Progress.antt =====
-- include/shmspsc/ShmSpscQueue.h: the calls of the two processes come to an end.
use shm_spsc.Base.{ℕ, ◌<◌, ◌≡◌, ◌≢◌, refl, List}
use shm_spsc.Ring.{Handle}
use shm_spsc.Spsc.{ProducerPc, ConsumerPc, System}
use shm_spsc.Spsc.Step.{ProducerStep, ConsumerStep, fresh, Reach}
use shm_spsc.Spsc.Safety.{IsFresh, Reach-Inv}
use shm_spsc.Spsc.Ranks.{push_rank, pop_rank, pop_moves, push_moves, pop_closer, push_closer}

module _ {ℓ} {A : Type ℓ} {cap : ℕ} {slots : List A} {p c : Handle}
    (f : IsFresh cap slots p c) where
  -- In every reachable state inside a call of the producer, the producer can take a step, and each
  -- step that it can take lowers `push_rank`, which no step of the consumer changes.
  pub push_wait_free :
      (s : System A)
      → Reach (fresh slots p c) s
      → s.producer.pc ≢ ProducerPc.idle
      → ((t : System A) × ProducerStep s t)
        × ((t : System A) → ProducerStep s t → push_rank t.producer.pc < push_rank s.producer.pc)
        × ((t : System A) → ConsumerStep s t → push_rank t.producer.pc ≡ push_rank s.producer.pc)
  push_wait_free s reach busy = (
    push_moves s s.producer.pc refl (Reach-Inv f reach).producer.seen_in busy,
    λ t m. push_closer m busy,
    λ t m. kept m,
  )
    where
      kept : {s t : System A} → ConsumerStep s t → push_rank t.producer.pc ≡ push_rank s.producer.pc
      kept (ConsumerStep.front e) = refl
      kept (ConsumerStep.pop_n n e) = refl
      kept (ConsumerStep.recheck k e lo hi) = refl
      kept (ConsumerStep.recount k e lo hi) = refl
      kept (ConsumerStep.look e) = refl
      kept (ConsumerStep.put_back e) = refl
      kept (ConsumerStep.pop e) = refl
      kept (ConsumerStep.copy e) = refl
      kept (ConsumerStep.release e) = refl

  -- In every reachable state inside a call of the consumer, or between `front` and `pop`, the
  -- consumer can take a step, and each lowers `pop_rank`, which no step of the producer changes.
  pub pop_wait_free :
      (s : System A)
      → Reach (fresh slots p c) s
      → s.consumer.pc ≢ ConsumerPc.idle
      → ((t : System A) × ConsumerStep s t)
        × ((t : System A) → ConsumerStep s t → pop_rank t.consumer.pc < pop_rank s.consumer.pc)
        × ((t : System A) → ProducerStep s t → pop_rank t.consumer.pc ≡ pop_rank s.consumer.pc)
  pop_wait_free s reach busy = (
    pop_moves s s.consumer.pc refl (Reach-Inv f reach).consumer.seen_in busy,
    λ t m. pop_closer m busy,
    λ t m. kept m,
  )
    where
      kept : {s t : System A} → ProducerStep s t → pop_rank t.consumer.pc ≡ pop_rank s.consumer.pc
      kept (ProducerStep.push x e) = refl
      kept (ProducerStep.push_n src n g e) = refl
      kept (ProducerStep.recheck k e lo hi) = refl
      kept (ProducerStep.recount k e lo hi) = refl
      kept (ProducerStep.copy e) = refl
      kept (ProducerStep.publish e) = refl

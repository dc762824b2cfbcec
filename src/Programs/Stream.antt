-- ===== src/Programs/Stream.antt =====
-- The loops of src/demo_producer.cpp and src/demo_consumer.cpp on the queue of
-- include/shmspsc/ShmSpscQueue.h, with every access of the two processes interleaved.
use shm_spsc.Base.{
  ℕ, zero, suc, ◌∷◌, ◌<◌, ◌≡◌, refl, ap, ◌∙◌, some, List, [], length, take, u64_mod,
}
use shm_spsc.Ring.{Handle}
use shm_spsc.Demo.{Message, Send, produce, Poll, Tally, receive, exit_code}
use shm_spsc.Demo.Stream.{handled, demo_clean}
use shm_spsc.Spsc.{System}
use shm_spsc.Spsc.Step.{fresh, Reach}
use shm_spsc.Spsc.Safety.{IsFresh, fifo}
use shm_spsc.Programs.{first_tally}

take-take {ℓ} : {A : Type ℓ} (m n : ℕ) (xs : List A) → (k : ℕ) × (take m (take n xs) ≡ take k xs)
take-take zero n xs = (0, refl)
take-take (suc m) zero xs = (0, refl)
take-take (suc m) (suc n) [] = (0, refl)
take-take (suc m) (suc n) (x ∷ xs) = let (k, e) = take-take m n xs in (suc k, ap (◌∷◌ x) e)

module _ {cap : ℕ} {slots : List Message} {p c : Handle} (f : IsFresh cap slots p c) where
  -- In every interleaving: where what has been published is the first of what the producer's loop
  -- pushes, and what the consumer's loop has handled when it ends is what has been popped, fewer than
  -- 2^64 messages, its exit code is 0.
  pub streams_clean :
      (s : System Message)
      → Reach (fresh slots p c) s
      → (total : ℕ) (turns : List Send) (sent : ℕ) (ms : List Message) (j : ℕ)
      → produce total 0 [] turns ≡ some (sent, ms)
      → s.sent ≡ take j ms
      → (room : ℕ) (polls : List Poll) (t : Tally) → handled polls ≡ s.received
      → length (handled polls) < u64_mod
      → receive polls (first_tally room) ≡ some t
      → exit_code t ≡ 0
  streams_clean s reach total turns sent ms j made published room polls t popped few done =
      let n = length s.received in
      let (k, e) = take-take n j ms in
      demo_clean total turns sent ms polls (first_tally room) t k made refl refl
        (popped ∙ fifo f s reach ∙ ap (take n) published ∙ e) few done

-- ===== src/Tests/Roles.antt =====
-- A handle that claims the producer's slot and pushes, and one that claims the consumer's slot and
-- holds a pointer from `front` while the next element is copied in.
use shm_spsc.Base.{
  ℕ, ◌+◌, ◌<◌, ◌≡◌, ◌≢◌, refl, true, false, [], ◌∷◌, length, take, get_elem?, some, arith,
}
use shm_spsc.Base.Int.{pos}
use shm_spsc.Layout.{Role}
use shm_spsc.Ring.{next_index}
use shm_spsc.Claim.{judge, exchange, process_alive}
use shm_spsc.Claim.Contest.{ClaimPc, ClaimStep}
use shm_spsc.Spsc.{begin_push, begin_front, recheck_front}
use shm_spsc.Spsc.Step.{ProducerStep, ConsumerStep}
use shm_spsc.Spsc.Pending.{writes, reads}
use shm_spsc.Owners.{WorldStep}
use shm_spsc.Owners.Both.{Arena, ArenaStep, ArenaReach, here, next, vacant}
use shm_spsc.Owners.Both.Safety.{roles_safe}
use shm_spsc.Tests.Interleaved.{handle, slots, begun-IsFresh}
use shm_spsc.Tests.Control.{pid, pid_alone, pid_positive}
use shm_spsc.Tests.Owners.{
  put_unbound, put_bound, outside_unbound, judging_unbound, trying_unbound, stand0, stand1, stand2,
}

abbrev unclaimed : Arena ℕ
unclaimed =
    vacant (pos 0) (pos 0) (λ n. true) (λ n. true) slots (handle Role.producer)
      (handle Role.consumer)

-- Handle 0 of the producer's role is bound and has published 7.
abbrev one_sent : (a : Arena ℕ) × ArenaReach pid unclaimed a
unfolding judge process_alive exchange begin_push next_index
one_sent = (
  _,
  next
      (next
        (next
          (next
            (next
              (next here (
                ArenaStep.by_producers
                  (WorldStep.contend (ClaimStep.load 0 refl refl)
                    (put_unbound stand0 0 _ (judging_unbound {n = pos 0} refl))
                    (λ i e ne. absurd (ne (put_bound stand0 0 _ (outside_unbound refl) i e))))
                  tt))
              (ArenaStep.by_producers
                (WorldStep.contend (ClaimStep.verdict 0 {e = pos 0} refl refl)
                  (put_unbound stand1 0 _ (trying_unbound {n = pos 0} refl))
                  (λ i e ne.
                    absurd (ne (put_bound stand1 0 _ (judging_unbound {n = pos 0} refl) i e))))
                tt))
            (ArenaStep.by_producers
              (WorldStep.own 0 (ClaimStep.attempt 0 false {e = pos 0} refl refl) refl refl
                (trying_unbound {n = pos 0} refl)
                (λ i e ne. absurd (ne (put_bound stand2 0 _ (trying_unbound {n = pos 0} refl) i e)))
                (omega arith))
              tt))
          (ArenaStep.by_producers (WorldStep.act 0 refl refl (ProducerStep.push 7 refl)) tt))
        (ArenaStep.by_producers (WorldStep.act 0 refl refl (ProducerStep.copy refl)) tt))
      (ArenaStep.by_producers (WorldStep.act 0 refl refl (ProducerStep.publish refl)) tt),
)

-- Handle 0 of the consumer's role is bound and holds the pointer to 7; 9 is to be copied.
abbrev both_busy : (a : Arena ℕ) × ArenaReach pid unclaimed a
unfolding judge process_alive exchange begin_push next_index begin_front recheck_front
both_busy = (
  _,
  next
      (next
        (next
          (next
            (next
              (next one_sent.1 (
                ArenaStep.contend (ClaimStep.load 0 refl refl)
                  (put_unbound stand0 0 _ (judging_unbound {n = pos 0} refl))
                  (λ i e ne. absurd (ne (put_bound stand0 0 _ (outside_unbound refl) i e)))))
              (ArenaStep.contend (ClaimStep.verdict 0 {e = pos 0} refl refl)
                (put_unbound stand1 0 _ (trying_unbound {n = pos 0} refl))
                (λ i e ne.
                  absurd (ne (put_bound stand1 0 _ (judging_unbound {n = pos 0} refl) i e)))))
            (ArenaStep.own 0 (ClaimStep.attempt 0 false {e = pos 0} refl refl) refl refl
              (trying_unbound {n = pos 0} refl)
              (λ i e ne. absurd (ne (put_bound stand2 0 _ (trying_unbound {n = pos 0} refl) i e)))
              (omega arith)))
          (ArenaStep.act 0 refl refl (ConsumerStep.front refl)))
        (ArenaStep.act 0 refl refl
          (ConsumerStep.recheck {r = 0} 1 refl (omega arith) (omega arith))))
      (ArenaStep.by_producers (WorldStep.act 0 refl refl (ProducerStep.push 9 refl)) tt),
)

roles_safe_example :
    let a = both_busy.0 in
    let s = a.world.system in
    (s.received ≡ take (length s.received) s.sent)
    × (length s.sent < length s.received + 3)
    × ((h g : ℕ)
        → a.world.contest.alive (pid h) ≡ true
        → a.world.contest.pc h ≡ ClaimPc.bound
        → a.contest.alive (pid g) ≡ true
        → a.contest.pc g ≡ ClaimPc.bound
        → (m n i j : ℕ) → get_elem? (writes (a.world.locals h).pc) m ≡ some i
        → get_elem? (reads (a.receivers g).pc) n ≡ some j
        → i ≢ j)
roles_safe_example =
    roles_safe 3 pid pid_alone pid_positive (pos 0) (pos 0) (λ n. true) (λ n. true) begun-IsFresh
      both_busy.0 both_busy.1

-- The two accesses that are about to be made.
both_at_once :
    let a = both_busy.0 in
    (writes (a.world.locals 0).pc ≡ 1 ∷ []) × (reads (a.receivers 0).pc ≡ 0 ∷ [])
unfolding judge process_alive exchange begin_push next_index begin_front recheck_front
both_at_once = (refl, refl)

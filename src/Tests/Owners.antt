-- ===== src/Tests/Owners.antt =====
-- A handle that claims the producer's slot and dies within a `try_push`, and the next that claims it.
use shm_spsc.Base.{
  ℕ, ◌+◌, ◌<◌, ◌≡◌, ◌≢◌, refl, sym, ap, ◌∙◌, inl, inr, true, false, Bool-cases, ◌==◌, ==_iff,
  length, take, get_elem?, some, arith,
}
use shm_spsc.Base.Int.{ℤ, pos}
use shm_spsc.Layout.{Role}
use shm_spsc.Ring.{next_index}
use shm_spsc.Attach.{load_members}
use shm_spsc.Claim.{judge, exchange, process_alive}
use shm_spsc.Claim.Contest.{ClaimPc, ClaimStep, put}
use shm_spsc.Spsc.{begin_push}
use shm_spsc.Spsc.Step.{ProducerStep}
use shm_spsc.Spsc.Pending.{writes, reads}
use shm_spsc.Owners.{World, WorldStep, WorldReach, here, next, unowned}
use shm_spsc.Owners.Safety.{owners_safe}
use shm_spsc.Tests.Interleaved.{handle, slots, begun-IsFresh}
use shm_spsc.Tests.Control.{pid, pid_alone, pid_positive}
use shm_spsc.Tests.Takeover.{loaded}

module _ (f : ℕ → ClaimPc) (i : ℕ) (b : ClaimPc) where
  -- An access that leaves its handle unbound binds none.
  pub put_unbound : b ≢ ClaimPc.bound → (j : ℕ) → put f i b j ≡ ClaimPc.bound → f j ≡ ClaimPc.bound
  put_unbound ne j e = elim (Bool-cases (j == i)) [
    | inl same ↦ absurd (ne (rw same at e))
    | inr other ↦ rw other at e
  ]

  -- One of a handle that is not bound leaves those that are.
  pub put_bound : f i ≢ ClaimPc.bound → (j : ℕ) → f j ≡ ClaimPc.bound → put f i b j ≡ ClaimPc.bound
  put_bound ne j e = elim (Bool-cases (j == i)) [
    | inl same ↦ absurd (ne (ap f (sym ((==_iff j i).0 same)) ∙ e))
    | inr other ↦ rw other e
  ]

-- At the three points before the exchange has succeeded.
pub outside_unbound : {x : ClaimPc} → x ≡ ClaimPc.outside → x ≢ ClaimPc.bound
outside_unbound h e = cc

pub judging_unbound : {n : ℤ} {x : ClaimPc} → x ≡ ClaimPc.judging n → x ≢ ClaimPc.bound
judging_unbound h e = cc

pub trying_unbound : {n : ℤ} {x : ClaimPc} → x ≡ ClaimPc.trying n → x ≢ ClaimPc.bound
trying_unbound h e = cc

-- Where the handles stand from access to access.
abbrev pub stand0 : ℕ → ClaimPc
stand0 = λ i. ClaimPc.outside

abbrev pub stand1 : ℕ → ClaimPc
stand1 = put stand0 0 (ClaimPc.judging (pos 0))

abbrev pub stand2 : ℕ → ClaimPc
stand2 = put stand1 0 (ClaimPc.trying (pos 0))

abbrev pub stand3 : ℕ → ClaimPc
stand3 = put stand2 0 ClaimPc.bound

abbrev pub stand4 : ℕ → ClaimPc
stand4 = put stand3 1 (ClaimPc.judging (pos 1))

abbrev pub stand5 : ℕ → ClaimPc
stand5 = put stand4 1 (ClaimPc.trying (pos 1))

abbrev unclaimed : World ℕ
unclaimed = unowned (pos 0) (λ n. true) slots (handle Role.producer) (handle Role.consumer)

-- Handle 0 is bound and has copied 7, and nothing is published.
abbrev first_owner : (w : World ℕ) × WorldReach pid unclaimed w
unfolding judge process_alive exchange begin_push next_index
first_owner = (
  _,
  next
      (next
        (next
          (next
            (next here (
              WorldStep.contend (ClaimStep.load 0 refl refl)
                (put_unbound stand0 0 _ (judging_unbound {n = pos 0} refl))
                (λ i e ne. absurd (ne (put_bound stand0 0 _ (outside_unbound refl) i e)))))
            (WorldStep.contend (ClaimStep.verdict 0 {e = pos 0} refl refl)
              (put_unbound stand1 0 _ (trying_unbound {n = pos 0} refl))
              (λ i e ne.
                absurd (ne (put_bound stand1 0 _ (judging_unbound {n = pos 0} refl) i e)))))
          (WorldStep.own 0 (ClaimStep.attempt 0 false {e = pos 0} refl refl) refl refl
            (trying_unbound {n = pos 0} refl)
            (λ i e ne. absurd (ne (put_bound stand2 0 _ (trying_unbound {n = pos 0} refl) i e)))
            (omega arith)))
        (WorldStep.act 0 refl refl (ProducerStep.push 7 refl)))
      (WorldStep.act 0 refl refl (ProducerStep.copy refl)),
)

-- Its process, 1, dies; handle 1 loads the block, is bound in its place, and is to write 9 to slot 0.
abbrev second_owner : (w : World ℕ) × WorldReach pid unclaimed w
unfolding judge process_alive exchange begin_push next_index load_members
second_owner = (
  _,
  next
      (next
        (next
          (next
            (next
              (next first_owner.1
                (WorldStep.contend (ClaimStep.die 1) (λ i e. e) (λ i e ne. absurd (ne e))))
              (WorldStep.load 1 (record loaded { write_idx = 0 }) 0 refl refl refl (omega arith)))
            (WorldStep.contend (ClaimStep.load 1 refl refl)
              (put_unbound stand3 1 _ (judging_unbound {n = pos 1} refl))
              (λ i e ne. absurd (ne (put_bound stand3 1 _ (outside_unbound refl) i e)))))
          (WorldStep.contend (ClaimStep.verdict 1 {e = pos 1} refl refl)
            (put_unbound stand4 1 _ (trying_unbound {n = pos 1} refl))
            (λ i e ne. absurd (ne (put_bound stand4 1 _ (judging_unbound {n = pos 1} refl) i e)))))
        (WorldStep.own 1 (ClaimStep.attempt 1 false {e = pos 1} refl refl) refl refl
          (trying_unbound {n = pos 1} refl)
          (λ i e ne. absurd (ne (put_bound stand5 1 _ (trying_unbound {n = pos 1} refl) i e)))
          (omega arith)))
      (WorldStep.act 1 refl refl (ProducerStep.push 9 refl)),
)

owners_safe_run :
    let w = second_owner.0 in
    (w.system.received ≡ take (length w.system.received) w.system.sent)
    × (length w.system.sent < length w.system.received + 3)
    × ((h : ℕ)
        → w.contest.alive (pid h) ≡ true
        → w.contest.pc h ≡ ClaimPc.bound
        → (m n i j : ℕ) → get_elem? (writes (w.locals h).pc) m ≡ some i
        → get_elem? (reads w.system.consumer.pc) n ≡ some j
        → i ≢ j)
owners_safe_run =
    owners_safe 3 pid pid_alone pid_positive (pos 0) (λ n. true) begun-IsFresh second_owner.0
      second_owner.1

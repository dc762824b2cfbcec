-- ===== src/Calls/Refine.antt =====
-- The calls on two handles and their ring, against the same calls on a bounded queue.
use shm_spsc.Base.{ℕ, Bool, Option, ◌-◌, ◌≡◌, refl, ap, ap₂, ◌∙◌, List, [], ◌∷◌, length}
use native.Mathlib.Nat.{le_refl}
use shm_spsc.Ring.Invariant.{IsRing, IsWriter, IsReader, contents}
use shm_spsc.Ring.Observers.{size_lem, empty_lem}
use shm_spsc.Ring.Refine.{
  limit, try_push_refines, push_n_refines, front_refines, try_pop_refines, pop_n_refines,
}
use shm_spsc.Calls.{
  Link, Call, put, put_all, peek, get, get_n, measure, test, Reply, pushed, moved, seen, popped,
  taken, sized, found_empty, step, run, queue_step, queue_run,
}

pub record IsLink {ℓ} {A : Type ℓ} (l : Link A) : Type 0 where
  pub ring : IsRing l.shared
  pub writer : IsWriter l.producer l.shared.ctrl
  pub reader : IsReader l.consumer l.shared.ctrl

-- A step of the link, against the queue's.
abbrev Agrees {ℓ} : {A : Type ℓ} → Link A → Call A → Type ℓ
Agrees l c =
    let (reply, l') = step l c in
    ((reply, contents l'.shared) ≡ queue_step (limit l.shared) (contents l.shared) c)
    × IsLink l'
    × (limit l'.shared ≡ limit l.shared)

module _ {ℓ} {A : Type ℓ} where
  step_refines : (l : Link A) (c : Call A) → IsLink l → Agrees l c
  unfolding step queue_step
  step_refines l (put x) v =
      let (e, p) = try_push_refines v.ring x v.writer in
      (
        ap (λ (t : Bool × List A). (pushed t.0, t.1)) e,
        record { ring = p.ring; writer = p.writer; reader = p.readers l.consumer v.reader },
        ap (λ k. k - 1) p.fixed,
      )
  step_refines l (put_all xs) v =
      let (e, p) = push_n_refines v.ring xs (length xs) (le_refl (length xs)) v.writer in
      (
        ap (λ (t : ℕ × List A). (moved t.0, t.1)) e,
        record { ring = p.ring; writer = p.writer; reader = p.readers l.consumer v.reader },
        ap (λ k. k - 1) p.fixed,
      )
  step_refines l peek v =
      let (e, k) = front_refines v.ring v.reader in
      (
        ap (λ o. (seen o, contents l.shared)) e,
        record { ring = v.ring; writer = v.writer; reader = k },
        refl,
      )
  step_refines l get v =
      let (e, p) = try_pop_refines v.ring v.reader in
      (
        ap (λ (t : Bool × Option A × List A). (popped t.0 t.1, t.2)) e,
        record { ring = p.ring; writer = p.writers l.producer v.writer; reader = p.reader },
        ap (λ k. k - 1) p.fixed,
      )
  step_refines l (get_n n) v =
      let (e, p) = pop_n_refines v.ring n v.reader in
      (
        ap (λ (t : ℕ × List A × List A). (taken t.0 t.1, t.2)) e,
        record { ring = p.ring; writer = p.writers l.producer v.writer; reader = p.reader },
        ap (λ k. k - 1) p.fixed,
      )
  step_refines l measure v =
      (ap (λ n. (sized n, contents l.shared)) (size_lem v.ring l.producer v.writer.same), v, refl)
  step_refines l test v = (ap (λ b. (found_empty b, contents l.shared)) (empty_lem v.ring), v, refl)

  -- However the calls of the producer and of the consumer follow one another, each returns what the
  -- bounded queue of the ring's contents returns.
  pub run_refines :
      (l : Link A) (cs : List (Call A))
      → IsLink l
      → run l cs ≡ queue_run (limit l.shared) (contents l.shared) cs
  unfolding run queue_run
  run_refines l [] v = refl
  run_refines l (c ∷ cs) v =
      let (e, v', fixed) = step_refines l c v in
      ap₂ ◌∷◌ (ap (λ (t : Reply A × List A). t.0) e) (
        run_refines (step l c).1 cs v'
        ∙ ap₂ (λ k q. queue_run k q cs) fixed (ap (λ (t : Reply A × List A). t.1) e))

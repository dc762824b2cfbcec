-- ===== src/Throughput/Main.antt =====
-- src/bench_throughput.cpp: `run` and `main` round the loops, over the system calls. What each run
-- meets, whether its consumer attaches and how long its loops take, is given.
use shm_spsc.Base.{ℕ, ◌≡◌, refl, sym, ap, ◌∙◌, Bool, false, Option, none, some, List, [], ◌∷◌}
use shm_spsc.Base.Results.{Result, ok, err}
use shm_spsc.Layout.{Role, Binary}
use shm_spsc.Ring.{Handle}
use shm_spsc.Segment.{remove}
use shm_spsc.Segment.Laws.{Resources}
use shm_spsc.Claim.{Attempt}
use shm_spsc.Connect.{Host, create_queue, leave}
use shm_spsc.Connect.Held.{HostLaws}
use shm_spsc.Connect.Made.{Made, create_queue_lem, leave-owned}
use shm_spsc.Throughput.{timed_run}

pub record Trial : Type 0 where
  pub capacity : ℕ
  pub attempts : List Attempt
  pub attached : Bool
  pub start : ℕ
  pub finish : ℕ

module _ {S : Type 0} (host : Host S) (b : Binary) (name : List ℕ) where
  -- An exception is not caught: it ends the program.
  abbrev pub after_create : Trial → Option (Result Handle × S) → Option (Result (Option ℕ) × S)
  after_create t none = none
  after_create t (some (err e, s)) = some (err e, s)
  after_create t (some (ok h, s)) =
      some (ok (timed_run t.attached t.start t.finish), leave host h s)

  unfoldable pub bench_run : Trial → S → Option (Result (Option ℕ) × S)
  bench_run t s = after_create t (create_queue host b t.attempts name t.capacity Role.producer s)

  abbrev pub cons_run :
      Option ℕ → Option (Result (List (Option ℕ)) × S) → Option (Result (List (Option ℕ)) × S)
  cons_run r none = none
  cons_run r (some (err e, s)) = some (err e, s)
  cons_run r (some (ok rs, s)) = some (ok (r ∷ rs), s)

  abbrev pub then_runs :
      Option (Result (Option ℕ) × S)
      → (S → Option (Result (List (Option ℕ)) × S))
      → Option (Result (List (Option ℕ)) × S)
  then_runs none more = none
  then_runs (some (err e, s)) more = some (err e, s)
  then_runs (some (ok r, s)) more = cons_run r (more s)

  unfoldable pub run_each : List Trial → S → Option (Result (List (Option ℕ)) × S)
  run_each [] s = some (ok [], s)
  run_each (t ∷ ts) s = then_runs (bench_run t s) (run_each ts)

  abbrev pub after_runs :
      Option (Result (List (Option ℕ)) × S) → Option (Result (List (Option ℕ)) × S)
  after_runs none = none
  after_runs (some (err e, s)) = some (err e, s)
  after_runs (some (ok rs, s)) = some (ok rs, remove host.os name s)

  unfoldable pub throughput_main : List Trial → S → Option (Result (List (Option ℕ)) × S)
  throughput_main ts s = after_runs (run_each ts s)

module _ {S : Type 0} (host : Host S) (r : Resources S) (b : Binary) (name : List ℕ)
    (laws : HostLaws host r name) where
  some-inj {ℓ} : {B : Type ℓ} {a b : B} → some a ≡ some b → a ≡ b
  some-inj e = cc

  abbrev Same : S → S → Type 0
  Same s t = (r.fds t ≡ r.fds s) × (r.maps t ≡ r.maps s)

  after_create-Same :
      (t : Trial) (s : S) (o : Option (Result Handle × S)) (q : Result (Option ℕ)) (u : S)
      → ((res : Result Handle × S) → o ≡ some res → Made host r name laws s res)
      → after_create host b name t o ≡ some (q, u)
      → Same s u
  after_create-Same t s none q u made e = absurd (cc)
  after_create-Same t s (some (err x, v)) q u made e =
      let (f, m, _) = made (err x, v) refl in rw (sym (ap (λ k. k.1) (some-inj e))) (f, m)
  after_create-Same t s (some (ok h, v)) q u made e =
      let (f, m, _) = leave-owned host r name laws h s v (made (ok h, v) refl) in
      rw (sym (ap (λ k. k.1) (some-inj e))) (f, m)

  bench_run-Same :
      (t : Trial) (s : S) (q : Result (Option ℕ)) (u : S)
      → bench_run host b name t s ≡ some (q, u)
      → Same s u
  unfolding bench_run
  bench_run-Same t s q u e =
      after_create-Same t s _ q u
        (create_queue_lem host r name laws b t.attempts t.capacity Role.producer s) e

  cons_run-Same :
      (k : Option ℕ) (s : S) (o : Option (Result (List (Option ℕ)) × S))
      (q : Result (List (Option ℕ))) (u : S)
      → ((res : Result (List (Option ℕ)) × S) → o ≡ some res → Same s res.1)
      → cons_run host b name k o ≡ some (q, u)
      → Same s u
  cons_run-Same k s none q u same e = absurd (cc)
  cons_run-Same k s (some (err x, v)) q u same e =
      rw (sym (ap (λ p. p.1) (some-inj e))) (same (err x, v) refl)
  cons_run-Same k s (some (ok rs, v)) q u same e =
      rw (sym (ap (λ p. p.1) (some-inj e))) (same (ok rs, v) refl)

  then_runs-Same :
      (s : S) (o : Option (Result (Option ℕ) × S))
      (more : S → Option (Result (List (Option ℕ)) × S)) (q : Result (List (Option ℕ))) (u : S)
      → ((res : Result (Option ℕ) × S) → o ≡ some res → Same s res.1)
      → ((v : S) (res : Result (List (Option ℕ)) × S) → more v ≡ some res → Same v res.1)
      → then_runs host b name o more ≡ some (q, u)
      → Same s u
  then_runs-Same s none more q u first rest e = absurd (cc)
  then_runs-Same s (some (err x, v)) more q u first rest e =
      rw (sym (ap (λ p. p.1) (some-inj e))) (first (err x, v) refl)
  then_runs-Same s (some (ok k, v)) more q u first rest e =
      let (f, m) = first (ok k, v) refl in
      let (f', m') = cons_run-Same k v (more v) q u (rest v) e in (f' ∙ f, m' ∙ m)

  run_each-Same :
      (ts : List Trial) (s : S) (q : Result (List (Option ℕ))) (u : S)
      → run_each host b name ts s ≡ some (q, u)
      → Same s u
  unfolding run_each
  run_each-Same [] s q u e = rw (sym (ap (λ p. p.1) (some-inj e))) (refl, refl)
  run_each-Same (t ∷ ts) s q u e =
      then_runs-Same s (bench_run host b name t s) (run_each host b name ts) q u
        (λ res h. bench_run-Same t s res.0 res.1 h) (λ v res h. run_each-Same ts v res.0 res.1 h) e

  -- Once `main` is through its runs, whatever became of them, no object of the name is left, and
  -- descriptors and mappings are what they were.
  pub throughput_main_lem :
      (ts : List Trial) (s : S) (rs : List (Option ℕ)) (u : S)
      → throughput_main host b name ts s ≡ some (ok rs, u)
      → (r.fds u ≡ r.fds s) × (r.maps u ≡ r.maps s) × (r.present name u ≡ false)
  unfolding throughput_main remove
  throughput_main_lem ts s rs u e = ended (run_each host b name ts s) refl e
    where
      ended :
          (o : Option (Result (List (Option ℕ)) × S))
          → run_each host b name ts s ≡ o
          → after_runs host b name o ≡ some (ok rs, u)
          → (r.fds u ≡ r.fds s) × (r.maps u ≡ r.maps s) × (r.present name u ≡ false)
      ended none h q = absurd (cc)
      ended (some (err x, v)) h q = absurd (cc)
      ended (some (ok ks, v)) h q =
          let (f, m) = run_each-Same ts s (ok ks) v h in
          let (f', m', p') = laws.os_laws.unlinks v in
          rw (sym (ap (λ p. p.1) (some-inj q))) (f' ∙ f, m' ∙ m, p')

-- ===== src/Latency/Laps.antt =====
-- The whole run of src/bench_latency.cpp.
use shm_spsc.Base.{
  ℕ, suc, ◌+◌, ◌*◌, ◌/◌, ◌<◌, ◌≤◌, ◌≡◌, ◌⊎◌, ◌↔◌, refl, sym, ap, ◌∙◌, inl, inr, Bool, true, false,
  none, List, [], ◌∷◌, length, arith, u64_mod,
}
use shm_spsc.Demo.{Message}
use shm_spsc.Calls.{Link}
use shm_spsc.Calls.Refine.{IsLink}
use shm_spsc.Calls.Effects.{held}
use shm_spsc.Report.{Scales}
use shm_spsc.Report.Rank.{print_latency_iff}
use shm_spsc.Latency.{ParentPc, PingPong, iterations, Turn, turn, run_turns, started, report}
use shm_spsc.Latency.Phase.{Phase, Within, IsPaired, progress, EchoNext}
use shm_spsc.Latency.Turns.{Advances, parent_lem}
use shm_spsc.Latency.Echoes.{echo_lem}

-- The clock, which the two processes share, goes from `c` on and never back.
abbrev pub Ticks : ℕ → List Turn → Type 0
Ticks c [] = Unit
Ticks c (Turn.parents now ∷ ts) = (c ≤ now) × (now < u64_mod) × Ticks now ts
Ticks c (Turn.echoes now ∷ ts) = (c ≤ now) × (now < u64_mod) × Ticks now ts

abbrev pub clock_after : ℕ → List Turn → ℕ
clock_after c [] = c
clock_after c (Turn.parents now ∷ ts) = clock_after now ts
clock_after c (Turn.echoes now ∷ ts) = clock_after now ts

-- How often a turn of the echo follows, at any distance, on one of the parent.
abbrev pub laps : (asked : Bool) → List Turn → ℕ
laps asked [] = 0
laps asked (Turn.parents now ∷ ts) = laps true ts
laps true (Turn.echoes now ∷ ts) = suc (laps false ts)
laps false (Turn.echoes now ∷ ts) = laps false ts

Within-length : (xs ys : List ℕ) → Within xs ys → length xs ≡ length ys
Within-length [] [] w = refl
Within-length [] (y ∷ ys) w = absurd w
Within-length (x ∷ xs) [] w = absurd w
Within-length (x ∷ xs) (y ∷ ys) (h, w) = ap suc (Within-length xs ys w)

module _ (iters : ℕ) (fits : iters + iters / 10 + 1 < u64_mod) where
  run_turns_lem :
      (ts : List Turn) (c : ℕ) (s : PingPong)
      → IsPaired iters c s
      → Ticks c ts
      → IsPaired iters (clock_after c ts) (run_turns iters ts s)
  unfolding run_turns
  run_turns_lem [] c s v t = v
  run_turns_lem (Turn.parents now ∷ ts) c s v (le, word, t) =
      run_turns_lem ts now _ (parent_lem iters fits s v le word).0.0 t
  run_turns_lem (Turn.echoes now ∷ ts) c s v (le, word, t) =
      run_turns_lem ts now _ (echo_lem iters fits s v le word).0.0 t

  -- The last of the turns that it takes.
  abbrev goal : ℕ
  goal = 5 * iterations iters

  -- Ahead of `n`, or about to be, or through.
  abbrev Ready : ℕ → PingPong → Type 0
  Ready n s = (n < progress s) ⊎ EchoNext s ⊎ (goal ≤ progress s)

  ready : (n : ℕ) (s s' : PingPong) → n ≤ progress s → Advances iters fits s s' → Ready n s'
  ready n s s' le (inl more) = inl (omega (arith, le))
  ready n s s' le (inr (inl echo)) = inr (inl echo)
  ready n s s' le (inr (inr through)) = inr (inr through)

  run_turns-progress :
      (asked : Bool) (ts : List Turn) (c n : ℕ) (s : PingPong)
      → IsPaired iters c s
      → Ticks c ts
      → n ≤ progress s
      → (asked ≡ true → Ready n s)
      → goal ≤ n + laps asked ts
      → goal ≤ progress (run_turns iters ts s)
  unfolding run_turns
  run_turns-progress true [] c n s v t le w h = omega (arith, le, h)
  run_turns-progress false [] c n s v t le w h = omega (arith, le, h)
  run_turns-progress asked (Turn.parents now ∷ ts) c n s v (tick, word, t) le w h =
      let ((v', up), more) = parent_lem iters fits s v tick word in
      run_turns-progress true ts now n _ v' t (omega (arith, le, up))
        (λ e. ready n s (turn iters (Turn.parents now) s) le more) h
  run_turns-progress true (Turn.echoes now ∷ ts) c n s v (tick, word, t) le w h =
      let ((v', up), more) = echo_lem iters fits s v tick word in
      elim (w refl) [
        | inl ahead ↦
            run_turns-progress false ts now (suc n) _ v' t (omega (arith, ahead, up))
              (λ e. absurd (cc)) (omega (arith, h))
        | inr (inl echo) ↦
            run_turns-progress false ts now (suc n) _ v' t (omega (arith, le, more echo))
              (λ e. absurd (cc)) (omega (arith, h))
        | inr (inr through) ↦
            run_turns-progress false ts now goal _ v' t (omega (arith, through, up))
              (λ e. absurd (cc)) (omega arith)
      ]
  run_turns-progress false (Turn.echoes now ∷ ts) c n s v (tick, word, t) le w h =
      let ((v', up), more) = echo_lem iters fits s v tick word in
      run_turns-progress false ts now n _ v' t (omega (arith, le, up)) (λ e. absurd (cc)) h

  -- All the turns taken, the parent stands behind its last iteration.
  through :
      (c : ℕ) (s : PingPong)
      → IsPaired iters c s
      → goal ≤ progress s
      → (s.parent.pc ≡ ParentPc.begin) × (s.parent.i ≡ iterations iters)
  through c s v h = elim v.phase [
    | Phase.idle p e i most ping pong ↦ (p, omega (arith, i, most, rw (p, e) at h))
    | Phase.asking t0 a p e i lt ping pong ↦ absurd (omega (arith, i, lt, rw (p, e) at h))
    | Phase.asked t0 a p e i lt ping pong ↦ absurd (omega (arith, i, lt, rw (p, e) at h))
    | Phase.echoing t0 n a b p e i lt m ping pong ↦ absurd (omega (arith, i, lt, rw (p, e) at h))
    | Phase.answered t0 n a b p e i lt ping pong ↦ absurd (omega (arith, i, lt, rw (p, e) at h))
  ]

  module _ (ping pong : Link Message) (ping_link : IsLink ping) (pong_link : IsLink pong)
      (ping_empty : held ping ≡ []) (pong_empty : held pong ≡ []) where
    started-IsPaired : IsPaired iters 0 (started ping pong)
    started-IsPaired = record {
      ping_link = ping_link;
      pong_link = pong_link;
      phase = Phase.idle refl refl refl (omega arith) ping_empty pong_empty;
      counted = omega arith;
      within = tt;
    }

    -- Where the iterations with the warm-up are below 2^64 and both rings are sound and empty at the
    -- start: however the turns of the parent and of the echo follow one another, on a clock below
    -- 2^64 that does not go back, at most one message is on its way, each reply is to its own ping,
    -- and as many samples have been taken as iterations behind the warm-up, no one-way time longer
    -- than its round trip.
    pub run_turns-IsPaired :
        (ts : List Turn)
        → Ticks 0 ts
        → IsPaired iters (clock_after 0 ts) (run_turns iters ts (started ping pong))
    run_turns-IsPaired ts t = run_turns_lem ts 0 _ started-IsPaired t

    -- Under the same conditions: once the echo has had a turn behind one of the parent five times
    -- for each iteration, warm-up included, the parent's loop is through, with one sample of each
    -- kind for each counted iteration.
    pub run_turns_ends :
        (ts : List Turn)
        → Ticks 0 ts
        → 5 * iterations iters ≤ laps false ts
        → let p = (run_turns iters ts (started ping pong)).parent in
          (p.pc ≡ ParentPc.begin)
          × (p.i ≡ iterations iters)
          × (length p.rtt ≡ iters)
          × (length p.one_way ≡ iters)
    run_turns_ends ts t h =
        let s = run_turns iters ts (started ping pong) in
        let v = run_turns-IsPaired ts t in
        let (pc, i) = through _ s v (
          run_turns-progress false ts 0 0 _ started-IsPaired t (omega arith) (λ e. absurd (cc))
            (omega (arith, h))) in
        let count : length s.parent.rtt ≡ iters = omega (arith, v.counted, i, fits) in
        (pc, i, count, Within-length s.parent.one_way s.parent.rtt v.within ∙ count)

    -- Under the conditions of `run_turns_ends`, the line of round trips that is then printed has an
    -- undefined behaviour exactly if no iterations were asked for.
    pub report_iff :
        (scales : Scales) (ts : List Turn)
        → Ticks 0 ts
        → 5 * iterations iters ≤ laps false ts
        → ((report scales (run_turns iters ts (started ping pong))).0 ≡ none) ↔ (iters ≡ 0)
    unfolding report
    report_iff scales ts t h =
        let (_, _, count, _) = run_turns_ends ts t h in
        let rtt = (run_turns iters ts (started ping pong)).parent.rtt in
        let (forth, back) = print_latency_iff scales rtt in
        (λ e. sym count ∙ ap length (forth e), λ e. back (length-nil rtt (count ∙ e)))
      where
        length-nil : (xs : List ℕ) → length xs ≡ 0 → xs ≡ []
        length-nil [] e = refl
        length-nil (x ∷ xs) e = absurd (omega arith)

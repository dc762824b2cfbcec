-- ===== src/Latency/Echoes.antt =====
-- What a turn of the echo in src/bench_latency.cpp does to the phase.
use shm_spsc.Base.{
  ℕ, suc, ◌+◌, ◌/◌, ◌<◌, ◌≤◌, ◌≡◌, refl, sym, ap, ◌∙◌, inl, inr, Bool-cases, [], ◌∷◌, ltb, add64,
  arith, u64_mod, lt→ltb, true,
}
use shm_spsc.Demo.{Message, make_message}
use shm_spsc.Calls.{Link, pop_one}
use shm_spsc.Calls.Effects.{held, push_empty, pop_empty, pop_single}
use shm_spsc.Latency.{ParentPc, EchoPc, PingPong, iterations, echo_at, Turn, turn}
use shm_spsc.Latency.Turns.{Keeps, unmoved}
use shm_spsc.Latency.Phase.{answer, Phase, IsPaired, progress, EchoNext}

module _ (iters : ℕ) (fits : iters + iters / 10 + 1 < u64_mod) where
  module _ {c now : ℕ} (s : PingPong) (v : IsPaired iters c s) (le : c ≤ now)
      (word : now < u64_mod) where
    abbrev last : ℕ
    last = iterations iters

    kept : IsPaired iters now s
    kept = unmoved iters fits s v le word

    -- The echo reads in vain.
    echo_waits :
        s.echo.pc ≡ EchoPc.reading
        → held s.ping ≡ []
        → ((l : Link Message) → held l ≡ [] → Phase last now (record s { ping = l }))
        → let s' = turn iters (Turn.echoes now) s in Keeps iters now s s'
    unfolding turn echo_at
    echo_waits e ping phase =
        let (dry, link, still) = pop_empty s.ping v.ping_link ping in
        elim (Bool-cases (ltb s.echo.i last)) [
          | inr off ↦ rw (e, off) (rw e at kept, omega arith)
          | inl on ↦
              rw (e, on, dry)
                (
                  record {
                    ping_link = link;
                    pong_link = v.pong_link;
                    phase = rw e at (phase (pop_one s.ping).2 still);
                    counted = v.counted;
                    within = v.within;
                  },
                  omega arith,
                )
        ]

    echo_reads :
        (t0 : ℕ)
        → t0 ≤ c
        → s.parent.pc ≡ ParentPc.popping t0
        → s.echo.pc ≡ EchoPc.reading
        → s.echo.i ≡ s.parent.i
        → s.parent.i < last
        → held s.ping ≡ make_message s.parent.i t0 ∷ []
        → held s.pong ≡ []
        → let s' = turn iters (Turn.echoes now) s in
          IsPaired iters now s' × (progress s < progress s')
    unfolding turn echo_at
    echo_reads t0 a p e i lt ping pong =
        let (popped, out, link, dry) =
          pop_single s.ping v.ping_link (make_message s.parent.i t0) ping in
        let on : ltb s.echo.i last ≡ true = lt→ltb s.echo.i last (omega (arith, i, lt)) in
        rw (e, on, popped, out)
          (
            record {
              ping_link = link;
              pong_link = v.pong_link;
              phase = Phase.echoing t0 now (omega arith) (omega arith) p refl i lt refl dry pong;
              counted = v.counted;
              within = v.within;
            },
            omega arith,
          )

    echo_writes :
        (t0 n : ℕ)
        → t0 ≤ n
        → n ≤ c
        → s.parent.pc ≡ ParentPc.popping t0
        → s.echo.pc ≡ EchoPc.writing
        → s.echo.i ≡ s.parent.i
        → s.parent.i < last
        → s.echo.m ≡ answer s.parent.i t0 n
        → held s.ping ≡ []
        → held s.pong ≡ []
        → let s' = turn iters (Turn.echoes now) s in
          IsPaired iters now s' × (progress s < progress s')
    unfolding turn echo_at
    echo_writes t0 n a b p e i lt m ping pong =
        let (pushed, link, full) = push_empty s.pong v.pong_link s.echo.m pong in
        let up : add64 s.echo.i 1 ≡ suc s.echo.i = omega (arith, i, lt) in
        rw (e, pushed)
          (
            record {
              ping_link = v.ping_link;
              pong_link = link;
              phase =
                  Phase.answered t0 n a (omega arith) p refl (up ∙ ap suc i) lt ping
                    (full ∙ ap (λ k. k ∷ []) m);
              counted = v.counted;
              within = v.within;
            },
            omega (arith, up),
          )

    pub echo_lem :
        let s' = turn iters (Turn.echoes now) s in
        Keeps iters now s s' × (EchoNext s → progress s < progress s')
    echo_lem = elim v.phase [
      | Phase.idle p e i most ping pong ↦ (
        echo_waits e ping (λ l still. Phase.idle p e i most still pong),
        λ q. absurd (not_popping q.0 (sym p ∙ q.1)),
      )
      | Phase.asking t0 a p e i lt ping pong ↦ (
        echo_waits e ping (λ l still. Phase.asking t0 (omega arith) p e i lt still pong),
        λ q. absurd (pushing_popping q.0 (sym p ∙ q.1)),
      )
      | Phase.asked t0 a p e i lt ping pong ↦
          let (v', more) = echo_reads t0 a p e i lt ping pong in
          ((v', omega (arith, more)), λ q. more)
      | Phase.echoing t0 n a b p e i lt m ping pong ↦
          let (v', more) = echo_writes t0 n a b p e i lt m ping pong in
          ((v', omega (arith, more)), λ q. more)
      | Phase.answered t0 n a b p e i lt ping pong ↦ (
        echo_waits e ping (λ l still. Phase.answered t0 n a (omega arith) p e i lt still pong),
        λ q. absurd (omega (arith, i, rw e at q.2)),
      )
    ]
      where
        not_popping : (t0 : ℕ) → ParentPc.begin ≡ ParentPc.popping t0 → ⊥
        not_popping t0 h = cc

        pushing_popping :
            {m : Message} {t1 : ℕ} (t0 : ℕ) → ParentPc.pushing m t1 ≡ ParentPc.popping t0 → ⊥
        pushing_popping t0 h = cc

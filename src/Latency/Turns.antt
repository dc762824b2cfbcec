-- ===== src/Latency/Turns.antt =====
-- What a turn of the parent in src/bench_latency.cpp does to the phase.
use shm_spsc.Base.{
  ℕ, suc, ◌+◌, ◌*◌, ◌/◌, ◌<◌, ◌≤◌, ◌≡◌, ◌⊎◌, refl, sym, ◌∙◌, inl, inr, Bool-cases, [], ◌∷◌, ltb,
  arith, u64_mod, ltb→lt, ltb-not,
}
use shm_spsc.Demo.{Message, make_message}
use shm_spsc.Calls.{Link, pop_one}
use shm_spsc.Calls.Effects.{held, push_empty, pop_empty, pop_single}
use shm_spsc.Latency.{ParentPc, EchoPc, PingPong, iterations, collect, parent_at, Turn, turn}
use shm_spsc.Latency.Samples.{later, collect_lem}
use shm_spsc.Latency.Phase.{answer, Phase, IsPaired, progress, EchoNext, echo_turns}

-- What a turn that leads from `s` to `s'` owes: the pairing, and no step back.
abbrev pub Keeps : (iters now : ℕ) → (s s' : PingPong) → Type 0
Keeps iters now s s' = IsPaired iters now s' × (progress s ≤ progress s')

module _ (iters : ℕ) (fits : iters + iters / 10 + 1 < u64_mod) where
  -- The echo is next, or the parent has come further, or all is done.
  abbrev pub Advances : (s s' : PingPong) → Type 0
  Advances s s' = (progress s < progress s') ⊎ EchoNext s' ⊎ (5 * iterations iters ≤ progress s')

  module _ {c now : ℕ} (s : PingPong) (v : IsPaired iters c s) (le : c ≤ now)
      (word : now < u64_mod) where
    abbrev pub last : ℕ
    last = iterations iters

    pub unmoved : IsPaired iters now s
    unmoved = record {
      ping_link = v.ping_link;
      pong_link = v.pong_link;
      phase = later le v.phase;
      counted = v.counted;
      within = v.within;
    }

    from_idle :
        s.parent.pc ≡ ParentPc.begin
        → s.echo.pc ≡ EchoPc.reading
        → s.echo.i ≡ s.parent.i
        → s.parent.i ≤ last
        → held s.ping ≡ []
        → held s.pong ≡ []
        → let s' = turn iters (Turn.parents now) s in Keeps iters now s s' × Advances s s'
    unfolding turn parent_at
    from_idle p e i most ping pong = elim (Bool-cases (ltb s.parent.i last)) [
      | inl on ↦
          rw (p, on)
            (
              (
                record {
                  ping_link = v.ping_link;
                  pong_link = v.pong_link;
                  phase =
                      Phase.asking now (omega arith) refl e i (ltb→lt s.parent.i last on) ping pong;
                  counted = v.counted;
                  within = v.within;
                },
                omega arith,
              ),
              inl (omega arith),
            )
      | inr off ↦
          rw (p, off)
            (
              (rw p at unmoved, omega arith),
              inr (inr (rw e (omega (arith, i, most, ltb-not s.parent.i last off)))),
            )
    ]

    from_asking :
        (t0 : ℕ)
        → t0 ≤ c
        → s.parent.pc ≡ ParentPc.pushing (make_message s.parent.i t0) t0
        → s.echo.pc ≡ EchoPc.reading
        → s.echo.i ≡ s.parent.i
        → s.parent.i < last
        → held s.ping ≡ []
        → held s.pong ≡ []
        → let s' = turn iters (Turn.parents now) s in Keeps iters now s s' × Advances s s'
    unfolding turn parent_at
    from_asking t0 a p e i lt ping pong =
        let (pushed, link, full) =
          push_empty s.ping v.ping_link (make_message s.parent.i t0) ping in
        rw (p, pushed)
          (
            (
              record {
                ping_link = link;
                pong_link = v.pong_link;
                phase = Phase.asked t0 (omega arith) refl e i lt full pong;
                counted = v.counted;
                within = v.within;
              },
              omega arith,
            ),
            inl (omega arith),
          )

    -- The parent asks in vain, while the echo has not answered.
    from_waiting :
        (t0 : ℕ)
        → s.parent.pc ≡ ParentPc.popping t0
        → progress s < 5 * s.parent.i + 4
        → held s.pong ≡ []
        → ((l : Link Message) → held l ≡ [] → Phase last now (record s { pong = l }))
        → let s' = turn iters (Turn.parents now) s in Keeps iters now s s' × Advances s s'
    unfolding turn parent_at
    from_waiting t0 p few pong phase =
        let (dry, link, still) = pop_empty s.pong v.pong_link pong in
        let less : echo_turns s.echo.pc s.echo.i < 2 * s.parent.i + 2 =
          omega (arith, rw p at few) in
        rw (p, dry)
          (
            (
              record {
                ping_link = v.ping_link;
                pong_link = link;
                phase = rw p at (phase (pop_one s.pong).2 still);
                counted = v.counted;
                within = v.within;
              },
              omega arith,
            ),
            inr (inl (t0, refl, less)),
          )

    from_answered :
        (t0 n : ℕ)
        → t0 ≤ n
        → n ≤ c
        → s.parent.pc ≡ ParentPc.popping t0
        → s.echo.pc ≡ EchoPc.reading
        → s.echo.i ≡ suc s.parent.i
        → s.parent.i < last
        → held s.ping ≡ []
        → held s.pong ≡ answer s.parent.i t0 n ∷ []
        → let s' = turn iters (Turn.parents now) s in Keeps iters now s s' × Advances s s'
    unfolding turn parent_at make_message collect
    from_answered t0 n a b p e i lt ping pong =
        let (popped, out, link, dry) =
          pop_single s.pong v.pong_link (answer s.parent.i t0 n) pong in
        let (up, counted, within) =
          collect_lem iters t0 now (answer s.parent.i t0 n)
            (record s.parent { pc = ParentPc.popping t0 }) a (omega (arith, b, le)) word
            (omega (arith, lt)) v.counted v.within in
        rw (p, popped, out)
          (
            (
              record {
                ping_link = v.ping_link;
                pong_link = link;
                phase = Phase.idle refl e (i ∙ sym up) (omega (arith, up, lt)) ping dry;
                counted = counted;
                within = within;
              },
              omega (arith, up),
            ),
            inl (omega (arith, up)),
          )

    pub parent_lem :
        let s' = turn iters (Turn.parents now) s in Keeps iters now s s' × Advances s s'
    parent_lem = elim v.phase [
      | Phase.idle p e i most ping pong ↦ from_idle p e i most ping pong
      | Phase.asking t0 a p e i lt ping pong ↦ from_asking t0 a p e i lt ping pong
      | Phase.asked t0 a p e i lt ping pong ↦
          from_waiting t0 p (rw (p, e) (omega (arith, i))) pong
            (λ l still. Phase.asked t0 (omega arith) p e i lt ping still)
      | Phase.echoing t0 n a b p e i lt m ping pong ↦
          from_waiting t0 p (rw (p, e) (omega (arith, i))) pong
            (λ l still. Phase.echoing t0 n a (omega arith) p e i lt m ping still)
      | Phase.answered t0 n a b p e i lt ping pong ↦ from_answered t0 n a b p e i lt ping pong
    ]

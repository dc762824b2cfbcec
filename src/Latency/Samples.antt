-- ===== src/Latency/Samples.antt =====
-- The samples of src/bench_latency.cpp, and its phase at a later reading of the clock.
use shm_spsc.Base.{
  ℕ, suc, ◌+◌, ◌-◌, ◌<◌, ◌≤◌, ◌≡◌, refl, ◌∙◌, inl, inr, false, Bool-cases, List, [], ◌∷◌, ◌++◌,
  length, length-append, ltb, leb, add64, sub64, arith, u64_mod, leb→le,
}
use shm_spsc.Demo.{Message}
use shm_spsc.Latency.{Parent, PingPong, warmup, one_way_of, collect}
use shm_spsc.Latency.Phase.{Phase, Within}

pub later : {last c now : ℕ} {s : PingPong} → c ≤ now → Phase last c s → Phase last now s
later h (Phase.idle p e i le ping pong) = Phase.idle p e i le ping pong
later h (Phase.asking t0 a p e i lt ping pong) = Phase.asking t0 (omega arith) p e i lt ping pong
later h (Phase.asked t0 a p e i lt ping pong) = Phase.asked t0 (omega arith) p e i lt ping pong
later h (Phase.echoing t0 n a b p e i lt m ping pong) =
    Phase.echoing t0 n a (omega arith) p e i lt m ping pong
later h (Phase.answered t0 n a b p e i lt ping pong) =
    Phase.answered t0 n a (omega arith) p e i lt ping pong

append-Within :
    (xs ys : List ℕ) (x y : ℕ) → Within xs ys → x ≤ y → Within (xs ++ x ∷ []) (ys ++ y ∷ [])
append-Within [] [] x y w h = (h, tt)
append-Within [] (b ∷ ys) x y w h = absurd w
append-Within (a ∷ xs) [] x y w h = absurd w
append-Within (a ∷ xs) (b ∷ ys) x y (le, w) h = (le, append-Within xs ys x y w h)

one_way_of-le : (t0 n now : ℕ) → t0 ≤ n → n ≤ now → now < u64_mod → one_way_of n t0 ≤ sub64 now t0
one_way_of-le t0 n now a b word = elim (Bool-cases (ltb t0 n)) [
  | inl on ↦ rw on (omega arith)
  | inr off ↦ rw off (omega arith)
]

not_leb : (a b : ℕ) → leb a b ≡ false → b < a
not_leb a b e = ground arith

-- The sample of an iteration, if it is behind the warm-up.
pub collect_lem :
    (iters t0 now : ℕ) (reply : Message) (p : Parent)
    → t0 ≤ reply.sent_ns
    → reply.sent_ns ≤ now
    → now < u64_mod
    → p.i + 1 < u64_mod
    → length p.rtt ≡ p.i - warmup iters
    → Within p.one_way p.rtt
    → let p' = collect iters t0 now reply p in
      (p'.i ≡ suc p.i) × (length p'.rtt ≡ p'.i - warmup iters) × Within p'.one_way p'.rtt
unfolding collect
collect_lem iters t0 now reply p a b word small counted within =
    let e : add64 p.i 1 ≡ suc p.i = omega arith in
    elim (Bool-cases (leb (warmup iters) p.i)) [
      | inl kept ↦
          rw (kept, e)
            (
              refl,
              length-append p.rtt (sub64 now t0 ∷ [])
                  ∙ omega (arith, counted, leb→le (warmup iters) p.i kept),
              append-Within p.one_way p.rtt _ _ within
                  (one_way_of-le t0 reply.sent_ns now a b word),
            )
      | inr warming ↦
          rw (warming, e) (refl, omega (arith, counted, not_leb (warmup iters) p.i warming), within)
    ]

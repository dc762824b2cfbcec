-- ===== src/Latency/Main.antt =====
-- src/bench_latency.cpp: `main` round the two loops, over the system calls. Whether the echo process
-- attaches, the turns of the two loops and the clock at each are given.
use shm_spsc.Base.{
  ℕ, ◌≡◌, refl, sym, ap, ◌∙◌, Bool, true, false, ◌&&◌, Option, none, some, List, ◌++◌,
  if◌then◌else◌,
}
use shm_spsc.Base.Results.{Result, ok, err}
use shm_spsc.Layout.{Role, Binary}
use shm_spsc.Ring.{Segment, Handle}
use shm_spsc.Segment.{no_segment, remove, nonempty}
use shm_spsc.Segment.Laws.{Resources}
use shm_spsc.Claim.{Attempt}
use shm_spsc.Connect.{Host, create_queue, leave}
use shm_spsc.Connect.Held.{HostLaws, owned}
use shm_spsc.Connect.Made.{Made, Owns, create_queue_lem, leave_own_lem, leave_other_lem}
use shm_spsc.Demo.{Message}
use shm_spsc.Calls.{Link}
use shm_spsc.Programs.{argument}
use shm_spsc.Report.{Scales, Line}
use shm_spsc.Latency.{Turn, run_turns, started, latency_main}

-- What a run of the program meets.
pub record Session : Type 0 where
  pub iters : Option ℕ
  pub ping_attempts : List Attempt
  pub pong_attempts : List Attempt
  pub ping_came : Bool
  pub pong_came : Bool
  pub ping : Link Message
  pub pong : Link Message
  pub turns : List Turn
  pub scales : Scales

abbrev pub Output : Type 0
Output = ℕ × Option (Option Line × Option Line)

-- The exit code, and what is printed, once both queues are there.
unfoldable pub outcome : Session → Output
outcome t =
    latency_main t.ping_came t.pong_came t.scales
      (run_turns (argument 200000 t.iters) t.turns (started t.ping t.pong))

module _ {S : Type 0} (host : Host S) (b : Binary) (ping_name pong_name : List ℕ) where
  -- `pong` is destroyed first.
  abbrev pub leave_both : (ping pong : Handle) → S → S
  leave_both ping pong s = leave host ping (leave host pong s)

  -- `ShmSegment::remove` of both names, at the end of a whole run
  abbrev pub removed : (came : Bool) → S → S
  removed came s = if came then remove host.os pong_name (remove host.os ping_name s) else s

  -- An exception is not caught: the program ends at once, with no destructor run.
  abbrev pub after_pong :
      Session → (ping : Handle) → Option (Result Handle × S) → Option (Result Output × S)
  after_pong t ping none = none
  after_pong t ping (some (err e, s)) = some (err e, s)
  after_pong t ping (some (ok pong, s)) =
      some (ok (outcome t), leave_both ping pong (removed (t.ping_came && t.pong_came) s))

  abbrev pub after_ping : Session → Option (Result Handle × S) → Option (Result Output × S)
  after_ping t none = none
  after_ping t (some (err e, s)) = some (err e, s)
  after_ping t (some (ok ping, s)) =
      after_pong t ping (create_queue host b t.pong_attempts pong_name 64 Role.consumer s)

  unfoldable pub latency_program : Session → S → Option (Result Output × S)
  latency_program t s =
      after_ping t (create_queue host b t.ping_attempts ping_name 64 Role.producer s)

module _ {S : Type 0} (host : Host S) (r : Resources S) (b : Binary) (ping_name pong_name : List ℕ)
    (ping_laws : HostLaws host r ping_name) (pong_laws : HostLaws host r pong_name)
    (apart : (s : S)
      → r.present pong_name (host.os.shm_unlink ping_name s) ≡ r.present pong_name s) where
  some-inj {ℓ} : {B : Type ℓ} {x y : B} → some x ≡ some y → x ≡ y
  some-inj e = cc

  -- Nothing of a run is left.
  abbrev pub Gone : S → S → Type 0
  Gone s u =
      (r.fds u ≡ r.fds s)
      × (r.maps u ≡ r.maps s)
      × (r.present ping_name u ≡ false)
      × (r.present pong_name u ≡ false)

  -- What a whole program leaves: nothing, or, where an exception has ended it, no descriptor and at
  -- most one mapping.
  abbrev pub Left : S → Result Output × S → Type 0
  Left s (ok out, u) = Gone s u
  Left s (err e, u) = (r.fds u ≡ r.fds s) × (g : Segment) × (r.maps u ≡ owned g ++ r.maps s)

  removed_lem :
      (came : Bool) (s : S)
      → (r.fds (removed host b ping_name pong_name came s) ≡ r.fds s)
        × (r.maps (removed host b ping_name pong_name came s) ≡ r.maps s)
  unfolding remove
  removed_lem false s = (refl, refl)
  removed_lem true s =
      let (f, m, _) = ping_laws.os_laws.unlinks s in
      let (f', m', _) = pong_laws.os_laws.unlinks (host.os.shm_unlink ping_name s) in
      (f' ∙ f, m' ∙ m)

  both_lem :
      (ping pong : Handle) (came : Bool) (s t u : S)
      → Owns host r ping_name ping_laws s ping.seg t
      → Owns host r pong_name pong_laws t pong.seg u
      → Gone s (
          leave_both host b ping_name pong_name ping pong
            (removed host b ping_name pong_name came u))
  both_lem ping pong came s t u (f, m, p, own, name, long) (f', m', p', own', name', long') =
      let v = removed host b ping_name pong_name came u in
      let (fr, mr) = removed_lem came u in
      let w = leave host pong v in
      let (fw, mw, pw) =
        leave_own_lem host r pong_name pong_laws pong t v own' name' long' (mr ∙ m') in
      let (fx, mx, px) = leave_own_lem host r ping_name ping_laws ping s w own name long (mw ∙ m) in
      (
        fx ∙ fw ∙ fr ∙ f' ∙ f,
        mx,
        px,
        leave_other_lem host r pong_name pong_laws ping s w own (mw ∙ m)
              (λ x. ap (λ n. r.present pong_name (host.os.shm_unlink n x)) name ∙ apart x)
              (ap (λ n. nonempty host.os n) name ∙ long)
            ∙ pw,
      )

  after_pong_lem :
      (t : Session) (ping : Handle) (s v : S) (o : Option (Result Handle × S))
      (res : Result Output × S)
      → Owns host r ping_name ping_laws s ping.seg v
      → ((q : Result Handle × S) → o ≡ some q → Made host r pong_name pong_laws v q)
      → after_pong host b ping_name pong_name t ping o ≡ some res
      → Left s res
  after_pong_lem t ping s v none res held made e = absurd (cc)
  after_pong_lem t ping s v (some (err x, w)) res (f, m, _, _, _, _) made e =
      let (f', m', _) = made (err x, w) refl in rw (sym (some-inj e)) (f' ∙ f, ping.seg, m' ∙ m)
  after_pong_lem t ping s v (some (ok pong, w)) res held made e =
      rw (sym (some-inj e))
        (both_lem ping pong (t.ping_came && t.pong_came) s v w held (made (ok pong, w) refl))

  after_ping_lem :
      (t : Session) (s : S) (o : Option (Result Handle × S)) (res : Result Output × S)
      → ((q : Result Handle × S) → o ≡ some q → Made host r ping_name ping_laws s q)
      → after_ping host b ping_name pong_name t o ≡ some res
      → Left s res
  after_ping_lem t s none res made e = absurd (cc)
  after_ping_lem t s (some (err x, v)) res made e =
      let (f, m, _) = made (err x, v) refl in rw (sym (some-inj e)) (f, no_segment, m)
  after_ping_lem t s (some (ok ping, v)) res made e =
      after_pong_lem t ping s v _ res (made (ok ping, v) refl)
        (create_queue_lem host r pong_name pong_laws b t.pong_attempts 64 Role.consumer v) e

  -- By the laws of the system, and where removing the one object leaves the other alone: however the
  -- latency benchmark returns, with its lines or because the echo process has not attached, its
  -- descriptors and mappings are what they were and no object of either name is left; if an
  -- exception of `create` ends it, no descriptor and at most one mapping is left.
  pub latency_program-Left :
      (t : Session) (s : S) (res : Result Output × S)
      → latency_program host b ping_name pong_name t s ≡ some res
      → Left s res
  unfolding latency_program
  latency_program-Left t s res e =
      after_ping_lem t s _ res
        (create_queue_lem host r ping_name ping_laws b t.ping_attempts 64 Role.producer s) e

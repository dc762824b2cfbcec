-- ===== src/Tests/Latency.antt =====
-- The latency benchmark on a small model of the system with two names.
use shm_spsc.Base.{ℕ, ◌≡◌, refl, ap, ◌∙◌, some, true, false, Bool, List, [], ◌∷◌, ◌==◌}
use shm_spsc.Base.Int.{pos}
use shm_spsc.Base.Results.{ok}
use shm_spsc.Layout.{bytes_needed}
use shm_spsc.Segment.{Os, Answer, OpenMode, create, validate_name, map_and_close, remove, reset}
use shm_spsc.Segment.Laws.{Resources, Opens}
use shm_spsc.Claim.{claim, judge, process_alive, exchange}
use shm_spsc.Attach.{bind, load_members, slot_count, init_control, detach}
use shm_spsc.Connect.{Host, create_queue, leave}
use shm_spsc.Connect.Held.{HostLaws}
use shm_spsc.Latency.Main.{Session, outcome, latency_program, Left, latency_program-Left}
use shm_spsc.Tests.Control.{binary}
use shm_spsc.Tests.Control.{kill_five}
use shm_spsc.Tests.Whole.{block}
use shm_spsc.Tests.System.{tail, without, without_first, without_second}
use shm_spsc.Tests.Attached.{first_try}
use shm_spsc.Tests.Benchmarks.{ring, turns, scales}

record Machine : Type 0 where
  fds : List ℕ
  maps : List (ℕ × ℕ)
  ping : Bool
  pong : Bool

abbrev ping_name : List ℕ
ping_name = 47 ∷ 105 ∷ []

abbrev pong_name : List ℕ
pong_name = 47 ∷ 111 ∷ []

abbrev is_pong : List ℕ → Bool
is_pong [] = false
is_pong (c ∷ []) = false
is_pong (c ∷ d ∷ name) = d == 111

abbrev there_at : Bool → Machine → Bool
there_at true s = s.pong
there_at false s = s.ping

abbrev put_at : Bool → Bool → Machine → Machine
put_at true there s = record s { pong = there }
put_at false there s = record s { ping = there }

abbrev opening : Bool → OpenMode → (there : Bool) → Machine → Answer ℕ × Machine
opening p OpenMode.create_new true s = (Answer.failed 17, s)
opening p OpenMode.create_new false s =
    (Answer.done 3, put_at p true (record s { fds = 3 ∷ s.fds }))
opening p OpenMode.read_write true s = (Answer.done 3, record s { fds = 3 ∷ s.fds })
opening p OpenMode.read_write false s = (Answer.failed 2, s)
opening p OpenMode.read_only true s = (Answer.done 3, record s { fds = 3 ∷ s.fds })
opening p OpenMode.read_only false s = (Answer.failed 2, s)

abbrev os : Os Machine
os = record {
  shm_open = λ name m s. opening (is_pong name) m (there_at (is_pong name) s) s;
  shm_unlink = λ name s. put_at (is_pong name) false s;
  ftruncate = λ fd n s. (Answer.done tt, s);
  fstat = λ fd s. (Answer.done (pos 776), s);
  mmap = λ size fd s. (Answer.done 4096, record s { maps = (4096, size) ∷ s.maps });
  munmap = λ addr size s. record s { maps = without addr size s.maps };
  close = λ fd s. record s { fds = tail s.fds };
}

abbrev host : Host Machine
host = record {
  os = os;
  view = λ addr s. block;
  store = λ addr c s. s;
  now = λ s. 0;
  pause = λ s. s;
  self = pos 9;
  kill = λ s. kill_five;
}

abbrev resources : Resources Machine
resources = record {
  fds = λ s. s.fds;
  maps = λ s. s.maps;
  present = λ name s. there_at (is_pong name) s;
}

opening-ping :
    (m : OpenMode) (there : Bool) (s : Machine)
    → s.ping ≡ there
    → Opens resources ping_name m s (opening false m there s)
opening-ping OpenMode.create_new true s e = (refl, refl, refl)
opening-ping OpenMode.create_new false s e = (refl, refl, refl)
opening-ping OpenMode.read_write true s e = (refl, refl, refl)
opening-ping OpenMode.read_write false s e = (refl, refl, refl)
opening-ping OpenMode.read_only true s e = (refl, refl, refl)
opening-ping OpenMode.read_only false s e = (refl, refl, refl)

opening-pong :
    (m : OpenMode) (there : Bool) (s : Machine)
    → s.pong ≡ there
    → Opens resources pong_name m s (opening true m there s)
opening-pong OpenMode.create_new true s e = (refl, refl, refl)
opening-pong OpenMode.create_new false s e = (refl, refl, refl)
opening-pong OpenMode.read_write true s e = (refl, refl, refl)
opening-pong OpenMode.read_write false s e = (refl, refl, refl)
opening-pong OpenMode.read_only true s e = (refl, refl, refl)
opening-pong OpenMode.read_only false s e = (refl, refl, refl)

ping_laws : HostLaws host resources ping_name
ping_laws = record {
  os_laws = record {
    unlinks = λ s. (refl, refl, refl);
    opens = λ m s. opening-ping m s.ping s refl;
    truncates = λ fd n s. (refl, refl, refl);
    stats = λ fd s. (refl, refl, refl);
    mmaps = λ size fd s. (refl, refl, refl);
    munmaps = λ addr size s l e. (refl, ap (without addr size) e ∙ without_first addr size l, refl);
    closes = λ fd s l e. (ap tail e, refl, refl);
  };
  stores = λ addr c s. (refl, refl, refl);
  pauses = λ s. (refl, refl);
  frees_second = λ other addr size s l e.
      (refl, ap (without addr size) e ∙ without_second other.0 other.1 addr size l, refl);
}

pong_laws : HostLaws host resources pong_name
pong_laws = record {
  os_laws = record {
    unlinks = λ s. (refl, refl, refl);
    opens = λ m s. opening-pong m s.pong s refl;
    truncates = λ fd n s. (refl, refl, refl);
    stats = λ fd s. (refl, refl, refl);
    mmaps = λ size fd s. (refl, refl, refl);
    munmaps = λ addr size s l e. (refl, ap (without addr size) e ∙ without_first addr size l, refl);
    closes = λ fd s l e. (ap tail e, refl, refl);
  };
  stores = λ addr c s. (refl, refl, refl);
  pauses = λ s. (refl, refl);
  frees_second = λ other addr size s l e.
      (refl, ap (without addr size) e ∙ without_second other.0 other.1 addr size l, refl);
}

abbrev session : Session
session = record {
  iters = some 1;
  ping_attempts = first_try;
  pong_attempts = first_try;
  ping_came = true;
  pong_came = true;
  ping = ring;
  pong = ring;
  turns = turns;
  scales = scales;
}

-- An object that another program has left under the name of `ping`.
abbrev before : Machine
before = record { fds = []; maps = []; ping = true; pong = false }

abbrev behind : Machine
behind = record before { ping = false }

program_runs :
    latency_program host binary ping_name pong_name session before
    ≡ some (ok (outcome session), behind)
unfolding latency_program create_queue bytes_needed create validate_name map_and_close bind
    load_members claim judge process_alive exchange slot_count init_control remove leave reset
    detach
program_runs = refl

latency_program-Left_example :
    Left host resources binary ping_name pong_name ping_laws pong_laws
      (λ s. refl)
      before
      (ok (outcome session), behind)
latency_program-Left_example =
    latency_program-Left host resources binary ping_name pong_name ping_laws pong_laws (λ s. refl)
      session before (ok (outcome session), behind) program_runs

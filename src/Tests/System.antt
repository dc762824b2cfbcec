-- ===== src/Tests/System.antt =====
-- Segments on a small model of the system, with one name and one process.
use shm_spsc.Base.{◌+◌, ◌≤◌, arith, some}
use shm_spsc.Ring.{Segment}
use shm_spsc.Base.{
  ℕ, ◌≡◌, refl, Bool, List, [], ◌∷◌, false, true, ltb, ap, if◌then◌else◌, Bool-cases, inl, inr,
}
use shm_spsc.Base.Int.{pos, is_positive}
use shm_spsc.Base.Results.{Result, Error, err}
use shm_spsc.Segment.{Os, Answer, OpenMode, create, open_object, validate_name, map_and_close}
use shm_spsc.Segment.Laws.{Resources, OsLaws, Opens}
use shm_spsc.Segment.Cleanup.{Created, Opened, create_lem, open_lem}
use shm_spsc.Segment.{no_segment, reset}
use shm_spsc.Base.{◌==◌, ◌&&◌, eq→==, ==_iff, ap₂, sym, ◌∙◌}
use shm_spsc.Connect.Held.{HostLaws}
use shm_spsc.Connect.{Host, attach_loop}
use shm_spsc.Connect.Ends.{ClockLaws, attach_loop_ends}
use shm_spsc.Tests.Whole.{block}
use shm_spsc.Tests.Control.{kill_five}

pub record Machine : Type 0 where
  pub open_fds : List ℕ
  pub mappings : List (ℕ × ℕ)
  pub there : Bool
  pub bytes : ℕ
  pub time : ℕ

abbrev pub tail {ℓ} : {A : Type ℓ} → List A → List A
tail [] = []
tail (x ∷ xs) = xs

abbrev pub without : (addr size : ℕ) → List (ℕ × ℕ) → List (ℕ × ℕ)
without addr size [] = []
without addr size (m ∷ ms) =
    let rest = without addr size ms in if m.0 == addr && m.1 == size then ms else m ∷ rest

pub without_first : (addr size : ℕ) (l : List (ℕ × ℕ)) → without addr size ((addr, size) ∷ l) ≡ l
without_first addr size l = rw (eq→== addr addr refl, eq→== size size refl) refl

pub without_second :
    (a n addr size : ℕ) (l : List (ℕ × ℕ))
    → without addr size ((a, n) ∷ (addr, size) ∷ l) ≡ (a, n) ∷ l
without_second a n addr size l = elim (Bool-cases (a == addr)) [
  | inr other ↦ rw other (ap (◌∷◌ (a, n)) (without_first addr size l))
  | inl same ↦ elim (Bool-cases (n == size)) [
    | inr other ↦ rw (same, other) (ap (◌∷◌ (a, n)) (without_first addr size l))
    | inl too ↦
        rw (same, too)
          (ap₂ (λ i j. (i, j) ∷ l) (sym ((==_iff a addr).0 same)) (sym ((==_iff n size).0 too)))
  ]
]

abbrev opening : OpenMode → Bool → Machine → Answer ℕ × Machine
opening OpenMode.create_new true s = (Answer.failed 17, s)
opening OpenMode.create_new false s =
    (Answer.done 3, record s { open_fds = 3 ∷ s.open_fds; there = true; bytes = 0 })
opening m true s = (Answer.done 3, record s { open_fds = 3 ∷ s.open_fds })
opening m false s = (Answer.failed 2, s)

-- Memory for 4096 bytes.
abbrev pub small_os : Os Machine
small_os = record {
  shm_open = λ name m s. opening m s.there s;
  shm_unlink = λ name s. record s { there = false };
  ftruncate = λ fd n s.
      if is_positive n then (Answer.done tt, record s { bytes = 64 }) else (Answer.failed 22, s);
  fstat = λ fd s. (Answer.done (pos s.bytes), s);
  mmap = λ size fd s.
      if ltb 4096 size
      then (Answer.failed 12, s)
      else (Answer.done 4096, record s { mappings = (4096, size) ∷ s.mappings });
  munmap = λ addr size s. record s { mappings = without addr size s.mappings };
  close = λ fd s. record s { open_fds = tail s.open_fds };
}

abbrev pub resources : Resources Machine
resources = record { fds = λ s. s.open_fds; maps = λ s. s.mappings; present = λ name s. s.there }

abbrev pub name : List ℕ
name = 47 ∷ 113 ∷ []

opening-Opens :
    (m : OpenMode) (b : Bool) (s : Machine) → s.there ≡ b → Opens resources name m s (opening m b s)
opening-Opens OpenMode.create_new true s e = (refl, refl, refl)
opening-Opens OpenMode.create_new false s e = (refl, refl, refl)
opening-Opens OpenMode.read_write true s e = (refl, refl, refl)
opening-Opens OpenMode.read_write false s e = (refl, refl, refl)
opening-Opens OpenMode.read_only true s e = (refl, refl, refl)
opening-Opens OpenMode.read_only false s e = (refl, refl, refl)

pub small_os-OsLaws : OsLaws small_os resources name
small_os-OsLaws = record {
  unlinks = λ s. (refl, refl, refl);
  opens = λ m s. opening-Opens m s.there s refl;
  truncates = λ fd n s. elim (Bool-cases (is_positive n)) [
    | inl h ↦ rw h (refl, refl, refl)
    | inr h ↦ rw h (refl, refl, refl)
  ];
  stats = λ fd s. (refl, refl, refl);
  mmaps = λ size fd s. elim (Bool-cases (ltb 4096 size)) [
    | inl h ↦ rw h (refl, refl, refl)
    | inr h ↦ rw h (refl, refl, refl)
  ];
  munmaps = λ addr size s l e. (refl, ap (without addr size) e ∙ without_first addr size l, refl);
  closes = λ fd s l e. (ap tail e, refl, refl);
}

-- One more millisecond a pause; what is mapped is never ready.
abbrev pub small_host : Host Machine
small_host = record {
  os = small_os;
  view = λ addr s. record block { ready = 0 };
  store = λ addr c s. s;
  now = λ s. s.time;
  pause = λ s. record s { time = s.time + 1 };
  self = pos 9;
  kill = λ s. kill_five;
}

pub small_host-HostLaws : HostLaws small_host resources name
small_host-HostLaws = record {
  os_laws = small_os-OsLaws;
  stores = λ addr c s. (refl, refl, refl);
  pauses = λ s. (refl, refl);
  frees_second = λ other addr size s l e.
      (refl, ap (without addr size) e ∙ without_second other.0 other.1 addr size l, refl);
}

abbrev pub at_rest : Machine
at_rest = record { open_fds = []; mappings = []; there = true; bytes = 64; time = 0 }

-- `create` that fails at `mmap` has removed the object again.
create_fails :
    create small_os name 5000 at_rest
    ≡ (err (Error.system_error 12), record at_rest { there = false })
unfolding create map_and_close validate_name
create_fails = refl

create_lem_example : Created resources name 5000 at_rest (create small_os name 5000 at_rest)
create_lem_example = create_lem small_os resources name small_os-OsLaws 5000 at_rest

open_lem_run : Opened resources name at_rest (open_object small_os name at_rest)
open_lem_run = open_lem small_os resources name small_os-OsLaws at_rest

opening-time : (m : OpenMode) (b : Bool) (s : Machine) → s.time ≤ (opening m b s).1.time
opening-time OpenMode.create_new true s = omega arith
opening-time OpenMode.create_new false s = omega arith
opening-time OpenMode.read_write true s = omega arith
opening-time OpenMode.read_write false s = omega arith
opening-time OpenMode.read_only true s = omega arith
opening-time OpenMode.read_only false s = omega arith

small_host-ClockLaws : ClockLaws small_host
small_host-ClockLaws = record {
  over_open = λ name m s. opening-time m s.there s;
  over_unlink = λ name s. omega arith;
  over_stat = λ fd s. omega arith;
  over_mmap = λ size fd s. elim (Bool-cases (ltb 4096 size)) [
    | inl h ↦ rw h (omega arith)
    | inr h ↦ rw h (omega arith)
  ];
  over_munmap = λ addr size s. omega arith;
  over_close = λ fd s. omega arith;
  over_pause = λ s. omega arith;
}

attach_loop_ends_example :
    (r : Result Segment × Machine) × (attach_loop small_host 4 3 name no_segment at_rest ≡ some r)
attach_loop_ends_example =
    attach_loop_ends small_host small_host-ClockLaws 4 3 name no_segment at_rest (omega arith)
      (omega arith)

-- With no object of the name, the last error of `open` comes through at the deadline.
attach_times_out :
    attach_loop small_host 4 3 name no_segment (record at_rest { there = false })
    ≡ some (err (Error.system_error 2), record at_rest { there = false; time = 3 })
unfolding attach_loop open_object validate_name reset
attach_times_out = refl

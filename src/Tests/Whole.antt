-- ===== src/Tests/Whole.antt =====
-- Whole calls on a ring of four slots whose contents go round the end of the storage.
use shm_spsc.Base.{ℕ, ◌≡◌, refl, some, List, [], ◌∷◌, length, arith}
use shm_spsc.Base.Int.{pos}
use shm_spsc.Layout.{Role, ControlBlock}
use shm_spsc.Queue
use shm_spsc.Ring.{
  Handle, Shared, try_push, push_n, front, pop, pop_debug, try_pop, pop_n, size, pointee,
  free_slots, used_slots, take_run,
}
use shm_spsc.Ring.Index.{used}
use shm_spsc.Ring.Invariant.{IsRing, IsWriter, IsReader, contents}
use shm_spsc.Ring.Observers.{size_lem, pop_debug-front}
use shm_spsc.Ring.Refine.{
  Produced, Consumed, limit, try_push_refines, push_n_refines, front_refines, try_pop_refines,
  pop_n_refines,
}
use shm_spsc.Calls.{Link, Call, put, put_all, peek, get, get_n, measure, test, run, queue_run}
use shm_spsc.Calls.Refine.{run_refines}
use shm_spsc.Tests.Interleaved.{handle}

abbrev pub block : ControlBlock
block = record {
  magic = 0;
  capacity = 4;
  total_bytes = 288;
  version = 1;
  cache_line_size = 64;
  elem_size = 8;
  elem_align = 8;
  slots_offset = 256;
  producer_pid = pos 7;
  consumer_pid = pos 8;
  ready = 1;
  write_idx = 1;
  read_idx = 3;
}

-- 30, then 40, round the end
abbrev pub wrapped : Shared ℕ
wrapped = record { ctrl = block; slots = 40 ∷ 10 ∷ 20 ∷ 30 ∷ [] }

pub wrapped-IsRing : IsRing wrapped
wrapped-IsRing = omega arith

-- The producer has not seen that slots 1 and 2 are free.
abbrev pub writer : Handle
writer = record (handle Role.producer) { capacity = 4; read_idx_cache = 2 }

writer-IsWriter : IsWriter writer block
unfolding used
writer-IsWriter = record { same = refl; cache_in = omega arith; stale = omega arith }

abbrev pub reader : Handle
reader = record (handle Role.consumer) { capacity = 4; write_idx_cache = 0 }

reader-IsReader : IsReader reader block
unfolding used
reader-IsReader = record { same = refl; cache_in = omega arith; stale = omega arith }

-- One more fits, and the fourth slot stays empty.
push_n-wrapped : (push_n (50 ∷ 60 ∷ []) 2 writer wrapped).0 ≡ 1
unfolding push_n free_slots
push_n-wrapped = refl

pop_n-wrapped : (pop_n 9 reader wrapped).1 ≡ 30 ∷ 40 ∷ []
unfolding pop_n used_slots take_run
pop_n-wrapped = refl

abbrev script : List (Call ℕ)
script = put 50 ∷ put 60 ∷ get ∷ measure ∷ put_all (60 ∷ 70 ∷ []) ∷ get_n 9 ∷ peek ∷ test ∷ []

abbrev link : Link ℕ
link = record { producer = writer; consumer = reader; shared = wrapped }

run_refines_example : run link script ≡ queue_run (limit wrapped) (contents wrapped) script
run_refines_example =
    run_refines link script
      (record { ring = wrapped-IsRing; writer = writer-IsWriter; reader = reader-IsReader })

try_push_refines_run :
    let (b, h', s') = try_push 50 writer wrapped in
    ((b, contents s') ≡ Queue.push (limit wrapped) 50 (contents wrapped)) × Produced wrapped h' s'
try_push_refines_run = try_push_refines wrapped-IsRing 50 writer-IsWriter

push_n_refines_example :
    let (m, h', s') = push_n (50 ∷ 60 ∷ []) 2 writer wrapped in
    ((m, contents s') ≡ Queue.push_n (limit wrapped) (50 ∷ 60 ∷ []) 2 (contents wrapped))
    × Produced wrapped h' s'
push_n_refines_example =
    push_n_refines wrapped-IsRing (50 ∷ 60 ∷ []) 2 (omega arith) writer-IsWriter

front_refines_run :
    let (p, h') = front reader wrapped in
    (pointee p wrapped ≡ Queue.first (contents wrapped)) × IsReader h' block
front_refines_run = front_refines wrapped-IsRing reader-IsReader

try_pop_refines_run :
    let (b, out, h', s') = try_pop reader wrapped in
    ((b, out, contents s') ≡ Queue.pop (contents wrapped)) × Consumed wrapped h' s'
try_pop_refines_run = try_pop_refines wrapped-IsRing reader-IsReader

pop_n_refines_example :
    let (m, out, h', s') = pop_n 9 reader wrapped in
    ((m, out, contents s') ≡ Queue.pop_n 9 (contents wrapped)) × Consumed wrapped h' s'
pop_n_refines_example = pop_n_refines wrapped-IsRing 9 reader-IsReader

size_lem_run : size writer wrapped ≡ length (contents wrapped)
size_lem_run = size_lem wrapped-IsRing writer refl

pop_debug-front_run :
    pop_debug (front reader wrapped).1 wrapped ≡ some (pop (front reader wrapped).1 wrapped)
unfolding front
pop_debug-front_run = pop_debug-front wrapped-IsRing 3 reader-IsReader refl

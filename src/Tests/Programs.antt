-- ===== src/Tests/Programs.antt =====
-- The spinning calls, and the loops of the demo programs.
use shm_spsc.Base.{ℕ, ◌≡◌, ◌↔◌, refl, none, some, Bool, List, [], ◌∷◌, false, true, arith, take}
use shm_spsc.Base.Int.{negsuc}
use shm_spsc.Layout.{Role}
use shm_spsc.Ring.{Handle, Shared, try_push, try_pop, front, empty, next_index}
use shm_spsc.Claim.{peer_alive, process_alive}
use shm_spsc.Spin.{Turn, spin_push, spin_pop}
use shm_spsc.Base.{Option}
use shm_spsc.Spin.Drained.{spin_pop_ends}
use shm_spsc.Spin.Ends.{GaveUp, Finished, spin_push_ends, spin_push_gives_up, spin_pop_gives_up}
use shm_spsc.Demo.{
  Message, make_message, Tally, check_all, check_one, checksum_of, Poll, receive, produce, Send,
  exit_code,
}
use shm_spsc.Demo.Checks.{InOrder, check_all_iff}
use shm_spsc.Demo.Stream.{after, handled, receive_iff, produce-InOrder, demo_clean}
use shm_spsc.Tests.Whole.{block, wrapped, writer, reader}
use shm_spsc.Tests.Control.{kill_five}

-- Full: three of four slots; the consumer, process 8, is gone.
abbrev full : Shared ℕ
full = record wrapped { ctrl = record block { write_idx = 2 } }

abbrev full_turn : Turn ℕ
full_turn = record {
  tried = full;
  asked = record { shared = full; kill = kill_five };
  looked = record { shared = full; kill = kill_five };
}

abbrev two_turns : List (Turn ℕ)
two_turns = full_turn ∷ full_turn ∷ []

abbrev refreshed : Handle
refreshed = record writer { read_idx_cache = 3 }

push_gives_up : spin_push 1 50 refreshed 0 two_turns ≡ some (false, refreshed, full)
unfolding spin_push try_push next_index peer_alive process_alive
push_gives_up = refl

spin_push_ends_run :
    (r : Bool × Handle × Shared ℕ) × (spin_push 1 50 refreshed 0 two_turns ≡ some r)
unfolding peer_alive process_alive
spin_push_ends_run =
    spin_push_ends 1 50 refreshed 0 two_turns (omega arith) (omega arith) (omega arith)
      (refl, (refl, tt))

spin_push_gives_up_run : GaveUp 50 Role.producer two_turns full
spin_push_gives_up_run = spin_push_gives_up 1 50 refreshed refreshed 0 two_turns full push_gives_up

abbrev drained : Shared ℕ
drained = record wrapped { ctrl = record block { producer_pid = negsuc 0; read_idx = 1 } }

abbrev drained_turn : Turn ℕ
drained_turn = record {
  tried = drained;
  asked = record { shared = drained; kill = kill_five };
  looked = record { shared = drained; kill = kill_five };
}

abbrev dry_reader : Handle
dry_reader = record reader { write_idx_cache = 1 }

pop_gives_up : spin_pop 0 dry_reader 0 (drained_turn ∷ []) ≡ some (false, none, dry_reader, drained)
unfolding spin_pop try_pop front peer_alive process_alive empty
pop_gives_up = refl

spin_pop_gives_up_example : Finished Role.consumer 1 (drained_turn ∷ []) none drained
spin_pop_gives_up_example =
    spin_pop_gives_up 0 dry_reader dry_reader 0 1 (drained_turn ∷ []) none drained
      ((λ dead. refl), tt) pop_gives_up

spin_pop_ends_run :
    (r : Bool × Option ℕ × Handle × Shared ℕ) × (spin_pop 0 dry_reader 0 (drained_turn ∷ [])
      ≡ some r)
unfolding peer_alive process_alive empty
spin_pop_ends_run =
    spin_pop_ends 0 dry_reader 0 (drained_turn ∷ []) (omega arith) (omega arith) (omega arith)
      (refl, refl, tt)

abbrev idle_tally : Tally
idle_tally = record { received = 0; expect = 0; errors = 0; latency = []; reserved_room = 4 }

abbrev pub sends : List Send
sends =
    record { stop = false; now = 10; pushed = true }
    ∷ record { stop = false; now = 20; pushed = true }
    ∷ record { stop = false; now = 30; pushed = false }
    ∷ []

abbrev pub sent : List Message
sent = make_message 0 10 ∷ make_message 1 20 ∷ []

abbrev pub polls : List Poll
polls =
    record { stop = false; batch = take 1 sent; now = 40; peer_alive = true; empty = false }
    ∷ record { stop = false; batch = []; now = 50; peer_alive = false; empty = true }
    ∷ []

abbrev pub counted : Tally
counted = record { received = 1; expect = 1; errors = 0; latency = 30 ∷ []; reserved_room = 4 }

pub two_made : produce 5 0 [] sends ≡ some (2, sent)
unfolding produce
two_made = refl

pub one_got : receive polls idle_tally ≡ some counted
unfolding receive check_all check_one make_message checksum_of
one_got = refl

check_all_iff_run : ((check_all 40 sent idle_tally).errors ≡ 0) ↔ InOrder 0 sent
check_all_iff_run = check_all_iff 40 sent idle_tally (omega arith)

receive_iff_example : (counted.errors ≡ 0) ↔ InOrder 0 (handled polls)
receive_iff_example = receive_iff polls idle_tally counted one_got (omega arith)

produce-InOrder_run : InOrder 0 sent × (after 0 sent ≡ 2)
produce-InOrder_run = produce-InOrder 5 0 0 [] sends 2 sent tt refl two_made

demo_clean_run : exit_code counted ≡ 0
demo_clean_run =
    demo_clean 5 sends 2 sent polls idle_tally counted 1 two_made refl refl refl (omega arith)
      one_got

-- ===== src/Tests/Mains.antt =====
-- `attach` and `create` on the small model of the system, and the programs over them.
use shm_spsc.Base.{Bool, ◌+◌, ◌∙◌, ◌≡◌, refl, some, List, [], ◌∷◌, false, true, arith}
use shm_spsc.Base.Int.{pos}
use shm_spsc.Base.Results.{err, timed_out}
use shm_spsc.Layout.{Role, bytes_needed}
use shm_spsc.Segment.{create, open_object, validate_name, map_and_close, reset}
use shm_spsc.Claim.{Attempt, claim, judge, process_alive, exchange}
use shm_spsc.Attach.{validate, bind, load_members, slot_count, init_control, detach}
use shm_spsc.Connect.Held.{HostLaws}
use shm_spsc.Connect.{Host, attach, attach_loop, create_queue, leave}
use shm_spsc.Connect.Cleanup.{Kept, attach_lem}
use shm_spsc.Connect.Made.{Undone}
use shm_spsc.Demo.{receive, check_all, check_one, make_message, checksum_of, exit_code, produce}
use shm_spsc.Demo.Checks.{InOrder}
use shm_spsc.Demo.Stream.{handled}
use shm_spsc.Programs.{Wait, await, consumer_main, producer_main}
use shm_spsc.Programs.Exit.{consumer_main-Undone, producer_main-Same, consumer_main_clean}
use shm_spsc.Tests.Control.{binary}
use shm_spsc.Tests.System.{Machine, name, at_rest, small_host, resources, small_host-HostLaws}
use shm_spsc.Tests.Attached.{first_try, ready_host, ready_host-HostLaws, served}
use shm_spsc.Tests.Programs.{polls, sends}

-- Another process makes the object while the loop sleeps.
abbrev late_host : Host Machine
late_host = record small_host { pause = λ s. record s { time = s.time + 1; there = true } }

late_host-HostLaws : HostLaws late_host resources name
late_host-HostLaws = record {
  os_laws = small_host-HostLaws.os_laws;
  stores = small_host-HostLaws.stores;
  pauses = λ s. (refl, refl);
  frees_second = small_host-HostLaws.frees_second;
}

-- Others may make the object, and do not remove it.
abbrev Appears : Bool → Bool → Type 0
Appears true c = c ≡ true
Appears false c = Unit

appears_stays : (a : Bool) → Appears a a
appears_stays true = refl
appears_stays false = tt

appears_chain : (a c d : Bool) → Appears a c → Appears c d → Appears a d
appears_chain true c d h k = rw h at k
appears_chain false c d h k = tt

appears_over : (a : Bool) → Appears a true
appears_over true = refl
appears_over false = tt

-- Four iterations: the first finds no object, the others a segment that is never ready.
attach_gives_up :
    attach late_host binary 4 first_try name Role.producer 3 (record at_rest { there = false })
    ≡ some (err timed_out, record at_rest { time = 3 })
unfolding attach attach_loop open_object validate_name map_and_close reset
attach_gives_up = refl

attach_lem_example :
    Kept late_host resources name late_host-HostLaws Appears appears_stays appears_chain
      (λ s. appears_over s.there)
      (record at_rest { there = false })
      (record at_rest { time = 3 })
attach_lem_example =
    attach_lem late_host resources name late_host-HostLaws Appears appears_stays appears_chain
      (λ s. appears_over s.there) binary 4 first_try Role.producer 3
      (record at_rest { there = false }) (err timed_out, record at_rest { time = 3 })
      attach_gives_up

abbrev waits : List Wait
waits = record { stop = false; came = false } ∷ record { stop = false; came = true } ∷ []

consumer_runs :
    consumer_main small_host binary first_try name (some 2) waits false 4 polls at_rest
    ≡ some (0, record at_rest { there = false })
unfolding consumer_main create_queue bytes_needed create validate_name map_and_close reset bind
    load_members claim judge process_alive exchange slot_count leave await receive check_all
    check_one make_message checksum_of exit_code detach init_control
consumer_runs = refl

consumer_main-Undone_example :
    Undone small_host resources name small_host-HostLaws at_rest (record at_rest { there = false })
consumer_main-Undone_example =
    consumer_main-Undone small_host resources name small_host-HostLaws binary first_try (some 2)
      waits false 4 polls at_rest 0 (record at_rest { there = false }) consumer_runs

consumer_main_clean_example : InOrder 0 (handled polls)
consumer_main_clean_example =
    consumer_main_clean small_host 4 polls (omega arith) binary first_try name (some 2) waits
      at_rest (record at_rest { there = false }) consumer_runs

-- Process 7, in the producer's slot, is dead.
abbrev takes_over : List Attempt
takes_over = record { slot = pos 7; weak = false } ∷ []

producer_runs :
    producer_main ready_host binary 1 takes_over name (some 5) sends served ≡ some (0, served)
unfolding producer_main attach attach_loop open_object validate_name map_and_close reset validate
    bind load_members claim judge process_alive exchange leave detach produce
producer_runs = refl

same_chain : (a c d : Bool) → a ≡ c → c ≡ d → a ≡ d
same_chain a c d h k = h ∙ k

producer_main-Same_run :
    Kept ready_host resources name ready_host-HostLaws ◌≡◌
      (λ a. refl)
      same_chain
      (λ s. refl)
      served
      served
producer_main-Same_run =
    producer_main-Same ready_host resources name ready_host-HostLaws ◌≡◌ (λ a. refl) same_chain
      (λ s. refl) binary 1 takes_over (some 5) sends served 0 served producer_runs

-- ===== src/Tests/Handshake.antt =====
-- A queue that one process creates and another attaches to, on the small model of the system.
use shm_spsc.Base.{ℕ, ◌≡◌, refl, some, false, true, List, [], ◌∷◌, arith}
use shm_spsc.Base.Results.{ok}
use shm_spsc.Layout.{Role, ControlBlock}
use shm_spsc.Ring.{Handle, next_index}
use shm_spsc.Segment.{open_object, validate_name, map_and_close, reset}
use shm_spsc.Claim.{claim, judge, process_alive, exchange}
use shm_spsc.Attach.{validate, bind, load_members, slot_count, init_control}
use shm_spsc.Connect.{Host, attach, attach_loop}
use shm_spsc.Spsc.{System, begin_push, begin_front, recheck_front}
use shm_spsc.Spsc.Step.{
  ProducerStep, ConsumerStep, by_producer, by_consumer, fresh, Reach, here, next,
}
use shm_spsc.Memory.Handshake.{IsWritten, IsSafe, handshake-IsSafe}
use shm_spsc.Tests.Control.{binary}
use shm_spsc.Tests.System.{Machine, name, at_rest, small_host, resources, small_host-HostLaws}
use shm_spsc.Tests.Attached.{first_try}
use shm_spsc.Tests.Memory.{made_handle, create_runs}

-- What `create` has written, with `ready` set.
abbrev new_block : ControlBlock
new_block = record (init_control binary (slot_count 2) 280) { ready = 1 }

abbrev second_host : Host Machine
second_host = record small_host { view = λ addr s. new_block }

abbrev made : Machine
made = record at_rest { bytes = 280 }

abbrev second_handle : Handle
second_handle = record {
  seg = record { addr = some 4096; size = 280; owner = false; name = name };
  ctrl = some 4096;
  slots = some 4352;
  capacity = 3;
  role = Role.consumer;
  bound = true;
  read_idx_cache = 0;
  write_idx_cache = 0;
}

second_runs :
    attach second_host binary 1 first_try name Role.consumer 3 made
    ≡ some (ok second_handle, record made { mappings = (4096, 280) ∷ [] })
unfolding attach attach_loop open_object validate_name map_and_close reset validate bind
    load_members claim judge process_alive exchange slot_count init_control
second_runs = refl

new_block-IsWritten : IsWritten binary 2 280 new_block
new_block-IsWritten = record { slots = refl; offset = refl; read = refl; write = refl }

abbrev new_slots : List ℕ
new_slots = 0 ∷ 0 ∷ 0 ∷ []

-- 7 is published, and the consumer holds a pointer to it while 9 is to be copied.
abbrev busy : (q : System ℕ) × Reach (fresh new_slots made_handle second_handle) q
unfolding begin_push next_index begin_front recheck_front
busy = (
  _,
  next
      (next
        (next
          (next
            (next (next here (by_producer (ProducerStep.push 7 refl)))
              (by_producer (ProducerStep.copy refl)))
            (by_producer (ProducerStep.publish refl)))
          (by_producer (ProducerStep.push 9 refl)))
        (by_consumer (ConsumerStep.front refl)))
      (by_consumer (ConsumerStep.recheck {r = 0} 1 refl (omega arith) (omega arith))),
)

handshake-IsSafe_example : IsSafe binary 2 made_handle second_handle busy.0
handshake-IsSafe_example =
    handshake-IsSafe small_host second_host resources name small_host-HostLaws binary 2 280
      (omega arith) (omega arith) (λ addr s up. new_block-IsWritten) new_slots Role.producer
      first_try first_try 1 3 at_rest (record at_rest { mappings = (4096, 280) ∷ [] }) made
      (record made { mappings = (4096, 280) ∷ [] }) made_handle second_handle (omega arith)
      create_runs second_runs busy.0 busy.1

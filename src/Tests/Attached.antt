-- ===== src/Tests/Attached.antt =====
-- `attach` that finds a published block on the small model of the system.
use shm_spsc.Base.{arith, some}
use shm_spsc.Base.{ℕ, ◌≡◌, refl, List, [], ◌∷◌, false, true}
use shm_spsc.Base.Int.{pos}
use shm_spsc.Segment.{open_object, validate_name, map_and_close}
use shm_spsc.Segment.{reset}
use shm_spsc.Connect.Held.{HostLaws}
use shm_spsc.Connect.{Host, attach_loop}
use shm_spsc.Tests.Whole.{block}
use shm_spsc.Tests.Control.{binary}
use shm_spsc.Base.Results.{ok}
use shm_spsc.Layout.{Role, ControlBlock, segment_magic}
use shm_spsc.Ring.{Handle}
use shm_spsc.Claim.{Attempt, claim, judge, process_alive, exchange}
use shm_spsc.Attach.{validate, bind, load_members}
use shm_spsc.Connect.{attach}
use shm_spsc.Attach.{slot_count, init_control, no_handle}
use shm_spsc.Spsc.Safety.{IsFresh}
use shm_spsc.Connect.Fresh.{create-IsFresh}
use shm_spsc.Connect.Sound.{Attached, attach_sound}
use shm_spsc.Tests.System.{
  Machine, small_os-OsLaws, resources, name, small_host, small_host-HostLaws, at_rest,
}

abbrev ready_block : ControlBlock
ready_block = record block { magic = segment_magic; consumer_pid = pos 0 }

abbrev pub ready_host : Host Machine
ready_host = record small_host { view = λ addr s. ready_block }

pub ready_host-HostLaws : HostLaws ready_host resources name
ready_host-HostLaws = record {
  os_laws = small_os-OsLaws;
  stores = λ addr c s. (refl, refl, refl);
  pauses = λ s. (refl, refl);
  frees_second = small_host-HostLaws.frees_second;
}

abbrev pub served : Machine
served = record at_rest { bytes = 4096 }

abbrev pub joined_handle : Handle
joined_handle = record {
  seg = record { addr = some 4096; size = 4096; owner = false; name = name };
  ctrl = some 4096;
  slots = some 4352;
  capacity = 4;
  role = Role.consumer;
  bound = true;
  read_idx_cache = 3;
  write_idx_cache = 1;
}

abbrev pub first_try : List Attempt
first_try = record { slot = pos 0; weak = false } ∷ []

pub attach_runs :
    attach ready_host binary 1 first_try name Role.consumer 3 served
    ≡ some (ok joined_handle, record served { mappings = (4096, 4096) ∷ [] })
unfolding attach attach_loop open_object validate_name map_and_close reset validate bind
    load_members claim judge process_alive exchange
attach_runs = refl

attach_sound_run : Attached ready_host binary first_try Role.consumer joined_handle
attach_sound_run =
    attach_sound ready_host binary 1 first_try name Role.consumer 3 served
      (record served { mappings = (4096, 4096) ∷ [] }) joined_handle attach_runs

abbrev new_slots : List ℕ
new_slots = 0 ∷ 0 ∷ 0 ∷ []

create-IsFresh_run :
    IsFresh
      (slot_count 2)
      new_slots
      (load_members Role.producer no_handle (init_control binary (slot_count 2) 280))
      (load_members Role.consumer no_handle (init_control binary (slot_count 2) 280))
unfolding slot_count
create-IsFresh_run =
    create-IsFresh binary 2 280 new_slots no_handle no_handle (omega arith) (omega arith)

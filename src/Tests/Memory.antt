-- ===== src/Tests/Memory.antt =====
-- The layout of the control block, and the memory of queues on the small model of the system.
use shm_spsc.Base.{ℕ, ◌≤◌, ◌≡◌, ◌↔◌, refl, some, true, false, [], ◌∷◌, ◌++◌, arith}
use shm_spsc.Base.Results.{ok}
use shm_spsc.Layout.{Role, bytes_needed}
use shm_spsc.Layout.Fields.{offsets, members, size_of, align_of, assertions, elem_fits}
use shm_spsc.Layout.Lines.{layout_lem}
use shm_spsc.Ring.{Segment, Handle}
use shm_spsc.Segment.{create, validate_name, map_and_close}
use shm_spsc.Claim.{claim, judge, process_alive, exchange}
use shm_spsc.Attach.{no_handle, move_from, bind, load_members, slot_count, init_control}
use shm_spsc.Connect.{create_queue, leave, assign}
use shm_spsc.Connect.Moves.{moved_once}
use shm_spsc.Connect.Held.{owned}
use shm_spsc.Memory.Joined.{InBounds, attach-InBounds}
use shm_spsc.Memory.Made.{Placed, create_in_bounds}
use shm_spsc.Tests.Control.{binary}
use shm_spsc.Tests.System.{name, at_rest, small_host, resources, small_host-HostLaws}
use shm_spsc.Tests.Attached.{first_try, ready_host, served, joined_handle, attach_runs}

layout_lem_example :
    (offsets 0 (members 64)
      ≡ 0 ∷ 8 ∷ 16 ∷ 24 ∷ 28 ∷ 32 ∷ 36 ∷ 40 ∷ 44 ∷ 48 ∷ 52 ∷ 56 ∷ 64 ∷ 72 ∷ 128 ∷ 136 ∷ 192 ∷ [])
    × (size_of 64 ≡ 256)
    × (align_of 64 ≡ 64)
    × (assertions 64 ≡ true)
    × ((elem_align : ℕ) → (elem_fits 64 elem_align ≡ true) ↔ (elem_align ≤ 64))
layout_lem_example = layout_lem 64 (omega arith)

attach-InBounds_example : InBounds binary joined_handle
attach-InBounds_example =
    attach-InBounds ready_host binary (λ addr s. omega arith) 1 first_try name Role.consumer 3
      served (record served { mappings = (4096, 4096) ∷ [] }) joined_handle attach_runs
      (omega arith)

abbrev segment : (addr : ℕ) → Segment
segment addr = record { addr = some addr; size = 280; owner = true; name = name }

abbrev pub made_handle : Handle
made_handle = record {
  seg = segment 4096;
  ctrl = some 4096;
  slots = some 4352;
  capacity = 3;
  role = Role.producer;
  bound = true;
  read_idx_cache = 0;
  write_idx_cache = 0;
}

pub create_runs :
    create_queue small_host binary first_try name 2 Role.producer at_rest
    ≡ some (ok made_handle, record at_rest { mappings = (4096, 280) ∷ [] })
unfolding create_queue bytes_needed create validate_name map_and_close bind load_members claim judge
    process_alive exchange slot_count init_control
create_runs = refl

create_in_bounds_example :
    Placed binary 2 made_handle × ((4096, 280) ∷ [] ≡ owned made_handle.seg ++ [])
create_in_bounds_example =
    create_in_bounds small_host resources name small_host-HostLaws binary first_try 2 Role.producer
      (omega arith) (omega arith) at_rest (record at_rest { mappings = (4096, 280) ∷ [] })
      made_handle create_runs

-- The handle that `attach` has returned, moved to a new one and assigned to an empty one.
moved_once_example :
    (let (new, old) = move_from joined_handle in
      (leave ready_host old (leave ready_host new served) ≡ leave ready_host joined_handle served)
      × (leave ready_host new (leave ready_host old served)
          ≡ leave ready_host joined_handle served))
    × (let (h', o', t) = assign ready_host false no_handle joined_handle served in
        (leave ready_host o' (leave ready_host h' t)
          ≡ leave ready_host joined_handle (leave ready_host no_handle served))
        × (leave ready_host h' (leave ready_host o' t)
            ≡ leave ready_host joined_handle (leave ready_host no_handle served)))
moved_once_example = moved_once ready_host no_handle joined_handle served

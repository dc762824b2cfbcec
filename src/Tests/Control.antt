-- ===== src/Tests/Control.antt =====
-- Claims of a pid slot, geometry, segments on a small model of the system, and handles.
use shm_spsc.Base.{
  ℕ, suc, ◌+◌, ◌^◌, ◌<◌, ◌≤◌, ◌≡◌, ◌↔◌, ◌⊎◌, refl, none, some, List, [], ◌∷◌, false, true, arith,
  ◌==◌, size_max, if◌then◌else◌,
}
use shm_spsc.Base.Int.{pos, negsuc}
use shm_spsc.Base.Results.{ok, err, capacity_overflow, name_slash}
use shm_spsc.Layout.{Role, Platform, Binary, ControlBlock, bytes_needed}
use shm_spsc.Layout.Bounds.{true_size, bytes_needed_exact}
use shm_spsc.Ring.{Handle, Shared}
use shm_spsc.Ring.Index.{used}
use shm_spsc.Claim.{Kill, Verdict, judge, exchange, process_alive, Attempt, claim, set_own_pid}
use shm_spsc.Claim.Run.{settled, claim_alone}
use shm_spsc.Claim.Contest.{ClaimPc, Contest, ClaimStep, ClaimReach, here, next, start}
use shm_spsc.Claim.Exclusive.{exclusive, second_handle}
use shm_spsc.Segment.{validate_name, no_segment}
use shm_spsc.Segment.Names.{IsName, validate_name_iff}
use shm_spsc.Attach.{slot_count, init_control, validate, bind, load_members, detach, wait_for_peer}
use shm_spsc.Attach.Geometry.{create-validate, validate_wraps}
use shm_spsc.Attach.Binding.{IsBound, bind_lem, detach_lem, wait_for_peer_lem}
use shm_spsc.Attach.Stale.{Loses, late_bind}
use shm_spsc.Tests.Interleaved.{handle}
use shm_spsc.Tests.Whole.{block, wrapped, wrapped-IsRing}

-- Only process 5 lives.
abbrev pub kill_five : Kill
kill_five (pos n) = if n == 5 then none else some 3
kill_five (negsuc n) = some 3

claim_alone_run :
    claim kill_five
      (pos 9)
      (record { slot = pos 5; weak = true } ∷ record { slot = pos 5; weak = false } ∷ [])
      (pos 5)
    ≡ some (settled (pos 5) (judge kill_five (pos 9) (pos 5)))
claim_alone_run = claim_alone kill_five (pos 9) (pos 5) 1

five_refuses : judge kill_five (pos 9) (pos 5) ≡ Verdict.conflict
unfolding judge process_alive
five_refuses = refl

six_yields : judge kill_five (pos 9) (pos 6) ≡ Verdict.vacant
unfolding judge process_alive
six_yields = refl

abbrev pub pid : ℕ → ℕ
pid i = suc i

pub pid_alone : (i j : ℕ) → pid i ≡ pid j → i ≡ j
pid_alone i j e = omega arith

pub pid_positive : (i : ℕ) → 0 < pid i
pid_positive i = omega arith

-- Handle 0 claims and dies; handle 1 takes the slot over.
abbrev takeover : (s : Contest) × ClaimReach pid (start (pos 0) (λ n. true)) s
unfolding judge process_alive exchange
takeover = (
  _,
  next
      (next
        (next
          (next
            (next
              (next (next here (ClaimStep.load 0 refl refl))
                (ClaimStep.verdict 0 {e = pos 0} refl refl))
              (ClaimStep.attempt 0 false {e = pos 0} refl refl))
            (ClaimStep.die 1))
          (ClaimStep.load 1 refl refl))
        (ClaimStep.verdict 1 {e = pos 1} refl refl))
      (ClaimStep.attempt 1 false {e = pos 1} refl refl),
)

abbrev second : ℕ
second = 1

exclusive_example : second ≡ second
unfolding judge process_alive exchange
exclusive_example =
    exclusive pid pid_alone pid_positive (pos 0) (λ n. true) takeover.0 takeover.1 second second
      refl refl refl refl

abbrev pub binary : Binary
binary = record { platform = Platform.other; elem_size = 8; elem_align = 8 }

bytes_needed_exact_example :
    ((bytes_needed binary 1000 ≡ ok (true_size binary 1000)) × (true_size binary 1000 ≤ size_max))
    ⊎ ((bytes_needed binary 1000 ≡ err (capacity_overflow 1000))
        × (size_max < true_size binary 1000))
bytes_needed_exact_example = bytes_needed_exact binary 1000 (omega arith) (omega arith)

too_many : bytes_needed binary (2 ^ 61) ≡ err (capacity_overflow (2 ^ 61))
unfolding bytes_needed
too_many = refl

bytes_needed_1000 : bytes_needed binary 1000 ≡ ok 8264
unfolding bytes_needed
bytes_needed_1000 = refl

create-validate_example :
    (validate binary (init_control binary (slot_count 1000) 8264) 12288 ≡ none) ↔ (8264 ≤ 12288)
create-validate_example =
    create-validate binary 1000 8264 (omega arith) (omega arith) (omega arith) bytes_needed_1000
      (omega arith) (omega arith) 12288

validate_wraps_example :
    validate binary (record block { capacity = 4 + 2 ^ 61 }) 288 ≡ validate binary block 288
validate_wraps_example = validate_wraps binary block (2 ^ 61) refl 288

abbrev slashes : List ℕ
slashes = 47 ∷ 97 ∷ 47 ∷ []

second_slash : validate_name slashes ≡ some name_slash
unfolding validate_name
second_slash = refl

validate_name_iff_example : (validate_name (47 ∷ 97 ∷ []) ≡ none) ↔ IsName (47 ∷ 97 ∷ [])
validate_name_iff_example = validate_name_iff (47 ∷ 97 ∷ [])

-- `bind` as consumer, the slot being that of a dead process
abbrev reader_block : ControlBlock
reader_block = set_own_pid Role.consumer (pos 9) block

abbrev bound_reader : Handle
bound_reader = record {
  seg = no_segment;
  ctrl = some 4096;
  slots = some 4352;
  capacity = 4;
  role = Role.consumer;
  bound = true;
  read_idx_cache = 3;
  write_idx_cache = 1;
}

abbrev one_try : List Attempt
one_try = record { slot = pos 8; weak = false } ∷ []

bind_runs :
    bind kill_five (pos 9) one_try Role.consumer (handle Role.producer) block block
    ≡ some (ok (bound_reader, reader_block))
unfolding bind load_members claim judge process_alive exchange
bind_runs = refl

bind_lem_run : IsBound Role.consumer bound_reader reader_block
bind_lem_run =
    bind_lem wrapped wrapped-IsRing kill_five (pos 9) one_try Role.consumer (handle Role.producer)
      bound_reader reader_block bind_runs

detach_lem_run :
    ((detach (pos 9) bound_reader reader_block).1
      ≡ set_own_pid Role.consumer (negsuc 0) reader_block)
    × ((detach (pos 9) bound_reader reader_block).0.ctrl ≡ none)
    × ((detach (pos 9) bound_reader reader_block).0.bound ≡ false)
detach_lem_run = detach_lem (pos 9) bound_reader reader_block 4096 refl refl refl

wait_for_peer_lem_run : wait_for_peer 10 ((pos 0, 3) ∷ (negsuc 0, 9) ∷ (pos 6, 12) ∷ []) ≡ some true
wait_for_peer_lem_run =
    wait_for_peer_lem 10 ((pos 0, 3) ∷ (negsuc 0, 9) ∷ []) (pos 6, 12)
      (omega arith, (omega arith, tt)) (omega arith)

-- The block as the new producer reads it, and the full ring that the old one leaves.
abbrev crowded : Shared ℕ
crowded = record wrapped { ctrl = record block { producer_pid = negsuc 0; write_idx = 2 } }

abbrev late_handle : Handle
late_handle = record {
  seg = no_segment;
  ctrl = some 4096;
  slots = some 4352;
  capacity = 4;
  role = Role.producer;
  bound = true;
  read_idx_cache = 2;
  write_idx_cache = 1;
}

late_bind_example :
    Loses 50 late_handle (record crowded { ctrl = set_own_pid Role.producer (pos 9) crowded.ctrl })
unfolding bind load_members claim judge process_alive exchange used
late_bind_example =
    late_bind crowded (omega arith) (record block { producer_pid = negsuc 0; read_idx = 2 }) refl
      (omega arith) refl 50 kill_five (pos 9) (record { slot = negsuc 0; weak = false } ∷ [])
      (handle Role.producer) late_handle (set_own_pid Role.producer (pos 9) crowded.ctrl) refl

abbrev same_pid : ℕ → ℕ
same_pid i = 6

abbrev one_owner : Contest
one_owner = record {
  slot = pos 6;
  pc = λ i. if i == 0 then ClaimPc.bound else ClaimPc.outside;
  alive = λ n. true;
}

second_handle_run :
    (t : Contest) × ClaimReach same_pid one_owner t
    × (t.pc 0 ≡ ClaimPc.bound)
    × (t.pc 1 ≡ ClaimPc.bound)
second_handle_run = second_handle same_pid one_owner 0 1 (omega arith) refl refl refl refl refl

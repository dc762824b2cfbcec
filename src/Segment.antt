-- ===== src/Segment.antt =====
-- include/shmspsc/ShmSegment.h: a shared memory object and its mapping. The system calls are a
-- parameter, `Os`, with the state of the system that they change.
pub mod Names
pub mod Laws
pub mod Cleanup
pub mod Moves
use shm_spsc.Base.{
  ℕ, ◌-◌, ◌^◌, Bool, true, false, ◌&&◌, ◌||◌, not, Option, none, some, List, [], ◌∷◌, ltb, ◌==◌,
  if◌then◌else◌, u64_mod, length, u32,
}
use shm_spsc.Base.Int.{ℤ, pos, negsuc, is_positive}
use shm_spsc.Base.Results.{
  Error, Result, ok, err, name_prefix, name_too_long, name_slash, zero_bytes, zero_size,
  system_error,
}
use shm_spsc.Ring.{Segment}

-- What a system call returns: its value, or -1 and `errno`.
pub data Answer (A : Type 0) : Type 0 where
  done : A → Answer A
  failed : ℕ → Answer A

-- `O_CREAT | O_EXCL | O_RDWR`, `O_RDWR` and `O_RDONLY`
pub data OpenMode : Type 0 where
  create_new read_write read_only : OpenMode

pub record Os (S : Type 0) : Type 0 where
  pub shm_open : List ℕ → OpenMode → S → Answer ℕ × S
  pub shm_unlink : List ℕ → S → S
  pub ftruncate : (fd : ℕ) → ℤ → S → Answer Unit × S
  pub fstat : (fd : ℕ) → S → Answer ℤ × S
  pub mmap : (size fd : ℕ) → S → Answer ℕ × S
  pub munmap : (addr size : ℕ) → S → S
  pub close : (fd : ℕ) → S → S

-- `kMaxShmNameLen`, and `'/'`
abbrev pub max_shm_name_len : ℕ
max_shm_name_len = 31

abbrev pub slash : ℕ
slash = 47

abbrev pub has_slash : List ℕ → Bool
has_slash [] = false
has_slash (c ∷ name) = c == slash || has_slash name

-- `name[0] != '/'`, and whether `name.find('/', 1)` finds one
abbrev pub bad_start : List ℕ → Bool
bad_start [] = true
bad_start (c ∷ name) = not (c == slash)

abbrev pub later_slash : List ℕ → Bool
later_slash [] = false
later_slash (c ∷ name) = has_slash name

-- `validateName`: what it throws, if it does
unfoldable pub validate_name : List ℕ → Option Error
validate_name name =
    if ltb (length name) 2 || bad_start name
    then some name_prefix
    else if ltb max_shm_name_len (length name)
    then some name_too_long
    else if later_slash name
    then some name_slash
    else none

-- `static_cast<off_t>(bytes)`
abbrev pub off_t : ℕ → ℤ
off_t bytes = if ltb bytes (2 ^ 63) then pos bytes else negsuc (u64_mod - 1 - bytes)

-- A `ShmSegment` with no mapping.
abbrev pub no_segment : Segment
no_segment = record { addr = none; size = 0; owner = false; name = [] }

module _ {S : Type 0} (os : Os S) where
  abbrev pub mapped : (fd : ℕ) → List ℕ → (bytes : ℕ) → Bool → Answer ℕ × S → Result Segment × S
  mapped fd name bytes owner (Answer.failed e, s) =
      (err (system_error e), if owner then os.shm_unlink name (os.close fd s) else os.close fd s)
  mapped fd name bytes owner (Answer.done addr, s) =
      (ok (record { addr = some addr; size = bytes; owner = owner; name = name }), os.close fd s)

  unfoldable pub map_and_close : (fd : ℕ) → List ℕ → (bytes : ℕ) → Bool → S → Result Segment × S
  map_and_close fd name bytes owner s = mapped fd name bytes owner (os.mmap bytes fd s)

  abbrev pub truncated : (fd : ℕ) → List ℕ → (bytes : ℕ) → Answer Unit × S → Result Segment × S
  truncated fd name bytes (Answer.failed e, s) =
      (err (system_error e), os.shm_unlink name (os.close fd s))
  truncated fd name bytes (Answer.done x, s) = map_and_close fd name bytes true s

  abbrev pub created : List ℕ → (bytes : ℕ) → Answer ℕ × S → Result Segment × S
  created name bytes (Answer.failed e, s) = (err (system_error e), s)
  created name bytes (Answer.done fd, s) = truncated fd name bytes (os.ftruncate fd (off_t bytes) s)

  abbrev pub unless_bad : Option Error → Result Segment × S → S → Result Segment × S
  unless_bad (some e) rest s = (err e, s)
  unless_bad none rest s = rest

  unfoldable pub create : List ℕ → (bytes : ℕ) → S → Result Segment × S
  create name bytes s =
      unless_bad (validate_name name)
        (if bytes == 0
          then (err zero_bytes, s)
          else created name bytes (os.shm_open name OpenMode.create_new (os.shm_unlink name s)))
        s

  abbrev pub size_of : ℤ → ℕ
  size_of (pos n) = n
  size_of (negsuc n) = 0

  abbrev pub measured : (fd : ℕ) → List ℕ → Answer ℤ × S → Result Segment × S
  measured fd name (Answer.failed e, s) = (err (system_error e), os.close fd s)
  measured fd name (Answer.done n, s) =
      if is_positive n
      then map_and_close fd name (size_of n) false s
      else (err zero_size, os.close fd s)

  abbrev pub opened : List ℕ → Answer ℕ × S → Result Segment × S
  opened name (Answer.failed e, s) = (err (system_error e), s)
  opened name (Answer.done fd, s) = measured fd name (os.fstat fd s)

  -- `ShmSegment::open`
  unfoldable pub open_object : List ℕ → S → Result Segment × S
  open_object name s =
      unless_bad (validate_name name) (opened name (os.shm_open name OpenMode.read_write s)) s

  abbrev pub probed : Answer ℕ × S → Bool × S
  probed (Answer.failed e, s) = (false, s)
  probed (Answer.done fd, s) = (true, os.close fd s)

  -- `ShmSegment::exists`
  unfoldable pub object_exists : List ℕ → S → Bool × S
  object_exists name s = probed (os.shm_open name OpenMode.read_only s)

  unfoldable pub remove : List ℕ → S → S
  remove name s = os.shm_unlink name s

  abbrev pub unmapped : Option ℕ → (size : ℕ) → S → S
  unmapped none size s = s
  unmapped (some addr) size s = os.munmap addr size s

  abbrev pub nonempty : List ℕ → Bool
  nonempty [] = false
  nonempty (c ∷ name) = true

  unfoldable pub reset : Segment → S → Segment × S
  reset g s =
      let s' = unmapped g.addr g.size s in
      (no_segment, if g.owner && nonempty g.name then os.shm_unlink g.name s' else s')

  -- The destructor
  unfoldable pub destroy : Segment → S → S
  destroy g s = (reset g s).1

-- `release`, and `swap`
unfoldable pub release : Segment → Segment
release g = record g { owner = false }

unfoldable pub swap : Segment → Segment → Segment × Segment
swap g o = (
  record { addr = o.addr; size = o.size; owner = o.owner; name = o.name },
  record { addr = g.addr; size = g.size; owner = g.owner; name = g.name },
)

-- The move constructor: the new segment, and the source.
unfoldable pub move_from : Segment → Segment × Segment
move_from o = swap no_segment o

-- The move assignment: both segments, and the system behind the destructor of `tmp`.
unfoldable pub move_assign :
    {S : Type 0} → Os S → (same_object : Bool) → (g o : Segment) → S → Segment × Segment × S
move_assign os same_object g o s =
    if same_object
    then (g, o, s)
    else let (tmp, o') = swap no_segment o in
      let (g', tmp') = swap g tmp in (g', o', (reset os tmp' s).1)

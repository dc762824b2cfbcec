-- ===== src/Layout/Fields.antt =====
-- The members of `ControlBlock` of include/shmspsc/ShmSpscQueue.h as a compiler lays them out, for
-- any cache line size that a build may set, and the `static_assert`s on them.
use shm_spsc.Base.{
  ℕ, ◌+◌, ◌-◌, ◌*◌, ◌/◌, Bool, ◌&&◌, List, [], ◌∷◌, ltb, leb, ◌==◌, if◌then◌else◌, get_or,
}

-- What the layout needs of a member: its `sizeof`, and its alignment with what `alignas` asks for.
pub record Member : Type 0 where
  pub size : ℕ
  pub align : ℕ

abbrev pub word64 : Member
word64 = record { size = 8; align = 8 }

abbrev pub word32 : Member
word32 = record { size = 4; align = 4 }

abbrev pub chars : ℕ → Member
chars n = record { size = n; align = 1 }

-- Each stands at the next multiple of its alignment.
abbrev pub round_up : (n align : ℕ) → ℕ
round_up n align = (n + align - 1) / align * align

abbrev pub offsets : (from : ℕ) → List Member → List ℕ
offsets from [] = []
offsets from (m ∷ ms) = round_up from m.align ∷ offsets (round_up from m.align + m.size) ms

abbrev pub end_of : (from : ℕ) → List Member → ℕ
end_of from [] = from
end_of from (m ∷ ms) = end_of (round_up from m.align + m.size) ms

abbrev pub greater : ℕ → ℕ → ℕ
greater m n = if ltb m n then n else m

abbrev pub strictest : (align : ℕ) → List Member → ℕ
strictest align [] = align
strictest align (m ∷ ms) = strictest (greater align m.align) ms

-- `magic` to `pad3_`, in order; `line` is `kCacheLine`
unfoldable pub members : (line : ℕ) → List Member
members line =
    word64  -- magic
    ∷ word64  -- capacity
    ∷ word64  -- total_bytes
    ∷ word32  -- version
    ∷ word32  -- cache_line_size
    ∷ word32  -- elem_size
    ∷ word32  -- elem_align
    ∷ word32  -- slots_offset
    ∷ word32  -- producer_pid
    ∷ word32  -- consumer_pid
    ∷ word32  -- ready
    ∷ chars (line - 56)
    ∷ record { size = 8; align = line }  -- write_idx
    ∷ chars (line - 8)
    ∷ record { size = 8; align = line }  -- read_idx
    ∷ chars (line - 8)
    ∷ record { size = line; align = line }
    ∷ []

-- `offsetof`, by the number of the member
unfoldable pub offset_of : (line member : ℕ) → ℕ
offset_of line member = get_or (offsets 0 (members line)) member 0

abbrev pub write_idx_member : ℕ
write_idx_member = 12

abbrev pub read_idx_member : ℕ
read_idx_member = 14

-- `struct alignas(kCacheLine)`
unfoldable pub align_of : (line : ℕ) → ℕ
align_of line = strictest line (members line)

unfoldable pub size_of : (line : ℕ) → ℕ
size_of line = round_up (end_of 0 (members line)) (align_of line)

-- The assertions on the layout, and that on the alignment of the elements.
unfoldable pub assertions : (line : ℕ) → Bool
assertions line =
    size_of line == 4 * line
    && align_of line == line
    && offset_of line write_idx_member == line
    && offset_of line read_idx_member == 2 * line

unfoldable pub elem_fits : (line elem_align : ℕ) → Bool
elem_fits line elem_align = leb elem_align line

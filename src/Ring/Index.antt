-- ===== src/Ring/Index.antt =====
-- Index arithmetic round the ring: below the capacity no sum or difference of the queue's code is
-- spoilt by the wrap of `std::uint64_t`, and the counts are those of the ring.
use shm_spsc.Base.{
  ℕ, suc, ◌+◌, ◌-◌, ◌<◌, ◌≤◌, ◌^◌, ◌≡◌, ◌≢◌, ltb, leb, if◌then◌else◌, u64_mod, arith,
}
use shm_spsc.Ring.{next_index, skip_index, free_slots, used_slots}

-- How many slots from `r` on are in use, when the next write goes to `w`.
unfoldable pub used : ℕ → ℕ → ℕ → ℕ
used cap w r = if leb r w then w - r else w + cap - r

-- The index `n` steps round the ring from `i`.
unfoldable pub advance : ℕ → ℕ → ℕ → ℕ
advance cap i n = if ltb (i + n) cap then i + n else i + n - cap

pub used-lt : (cap w r : ℕ) → w < cap → r < cap → used cap w r < cap
unfolding used
used-lt cap w r hw hr = ground arith

-- The two branches of `usedSlots` and the wrap of its sum make no difference.
pub used_slots_lem :
    (cap w r : ℕ) → cap < u64_mod → w < cap → r < cap → used_slots cap w r ≡ used cap w r
unfolding used_slots used
used_slots_lem cap w r hc hw hr = ground arith

pub free_slots_lem :
    (cap w r : ℕ) → cap < u64_mod → w < cap → r < cap → free_slots cap w r ≡ cap - 1 - used cap w r
unfolding free_slots used
free_slots_lem cap w r hc hw hr = ground arith

pub next_index_lem : (cap i : ℕ) → cap < u64_mod → i < cap → next_index cap i ≡ advance cap i 1
unfolding next_index advance
next_index_lem cap i hc hi = ground arith

pub skip_index_lem :
    (cap i n : ℕ) → cap ≤ 2 ^ 63 → i < cap → n < cap → skip_index cap i n ≡ advance cap i n
unfolding skip_index advance
skip_index_lem cap i n hc hi hn = ground arith

pub advance-lt : (cap i n : ℕ) → i < cap → n ≤ cap → advance cap i n < cap
unfolding advance
advance-lt cap i n hi hn = ground arith

pub advance-zero : (cap i : ℕ) → i < cap → advance cap i 0 ≡ i
unfolding advance
advance-zero cap i hi = ground arith

pub advance-advance :
    (cap i m n : ℕ)
    → i < cap
    → m + n ≤ cap
    → advance cap (advance cap i m) n ≡ advance cap i (m + n)
unfolding advance
advance-advance cap i m n hi hn = ground arith

pub advance-suc :
    (cap i n : ℕ) → i < cap → n < cap → advance cap i (suc n) ≡ advance cap (advance cap i 1) n
unfolding advance
advance-suc cap i n hi hn = ground arith

pub advance-suc_last :
    (cap i n : ℕ) → i < cap → n < cap → advance cap i (suc n) ≡ advance cap (advance cap i n) 1
unfolding advance
advance-suc_last cap i n hi hn = ground arith

-- Short of the last slot a step is an increment.
pub advance-one : (cap i : ℕ) → i + 1 < cap → advance cap i 1 ≡ i + 1
unfolding advance
advance-one cap i h = ground arith

pub advance-one_suc : (cap i : ℕ) → suc i < cap → advance cap i 1 ≡ suc i
unfolding advance
advance-one_suc cap i h = ground arith

pub advance-ne : (cap i n : ℕ) → i < cap → 0 < n → n < cap → advance cap i n ≢ i
unfolding advance
advance-ne cap i n hi hn hc = ground arith

-- The write index is as far from the read index as there are slots in use.
pub advance-used : (cap w r : ℕ) → w < cap → r < cap → advance cap r (used cap w r) ≡ w
unfolding used advance
advance-used cap w r hw hr = ground arith

pub used-advance_write :
    (cap w r n : ℕ)
    → w < cap
    → r < cap
    → used cap w r + n < cap
    → used cap (advance cap w n) r ≡ used cap w r + n
unfolding used advance
used-advance_write cap w r n hw hr h = ground arith

pub used-advance_read :
    (cap w r n : ℕ)
    → w < cap
    → r < cap
    → n ≤ used cap w r
    → used cap w (advance cap r n) ≡ used cap w r - n
unfolding used advance
used-advance_read cap w r n hw hr h = ground arith

-- The test of `try_push` is that the ring is full, and that of `front` that it is empty.
pub next-eq-read : (cap w r : ℕ) → w < cap → r < cap → advance cap w 1 ≡ r → used cap w r + 1 ≡ cap
unfolding used advance
next-eq-read cap w r hw hr e = ground arith

pub next-ne-read : (cap w r : ℕ) → w < cap → r < cap → advance cap w 1 ≢ r → used cap w r + 1 < cap
unfolding used advance
next-ne-read cap w r hw hr e = ground arith

pub next_of_full : (cap w r : ℕ) → w < cap → r < cap → used cap w r + 1 ≡ cap → advance cap w 1 ≡ r
unfolding used advance
next_of_full cap w r hw hr e = ground arith

pub next_of_room : (cap w r : ℕ) → w < cap → r < cap → used cap w r + 1 < cap → advance cap w 1 ≢ r
unfolding used advance
next_of_room cap w r hw hr e = ground arith

pub used-eq-zero : (cap w r : ℕ) → w < cap → r < cap → used cap w r ≡ 0 → w ≡ r
unfolding used
used-eq-zero cap w r hw hr e = ground arith

pub used-ne-zero : (cap w r : ℕ) → w < cap → r < cap → 0 < used cap w r → r ≢ w
unfolding used
used-ne-zero cap w r hw hr e = ground arith

-- From `i` to the end of the slots.
pub advance_to_end : (cap i : ℕ) → i < cap → advance cap i (cap - i) ≡ 0
unfolding advance
advance_to_end cap i hi = ground arith

pub used_self : (cap r : ℕ) → used cap r r ≡ 0
unfolding used
used_self cap r = ground arith

pub advance_round : (cap i : ℕ) → i < cap → advance cap i cap ≡ i
unfolding advance
advance_round cap i hi = ground arith

pub used-advance_self : (cap r n : ℕ) → r < cap → n < cap → used cap (advance cap r n) r ≡ n
unfolding used advance
used-advance_self cap r n hr hn = ground arith

-- ===== src/Attach/Geometry.antt =====
-- What `create` of include/shmspsc/ShmSpscQueue.h writes, and what `validate` accepts.
use shm_spsc.Base.{
  ℕ, ◌+◌, ◌<◌, ◌≤◌, ◌^◌, ◌≡◌, inl, inr, refl, sym, ap, ◌∙◌, true, none, arith, ◌==◌, eq→==, le→ltb,
  size_max, add64, ◌*◌, u32, ◌↔◌, some, false, ltb, ◌||◌, if◌then◌else◌, Bool-cases, ltb→lt,
  ltb-not,
}
use native.Mathlib.Nat.{mod-eq_of_lt, add-mul}
use shm_spsc.Base.Results.{Error, ok, err}
use shm_spsc.Layout.{cache_line, Binary, ControlBlock, sizeof_control, bytes_needed}
use shm_spsc.Layout.Bounds.{true_size, bytes_needed_exact, line_le, product_le, no_wrap}
use shm_spsc.Attach.{slot_count, init_control, validate, needed}

ok-inj : {m n : ℕ} → ok m ≡ ok n → m ≡ n
ok-inj h = cc

ok-err : {n : ℕ} {e : Error} → ok n ≡ err e → ⊥
ok-err h = cc

==_self : (n : ℕ) → (n == n) ≡ true
==_self n = eq→== n n refl

some_is_not {ℓ} : {B : Type ℓ} {x : B} → some x ≡ none → ⊥
some_is_not e = cc

-- The last test of `validate`, on a block whose slots fit what it declares.
accepts_iff :
    (bytes size : ℕ) (e : Error)
    → ((if false || ltb size bytes then some e else none) ≡ none) ↔ (bytes ≤ size)
accepts_iff bytes size e = elim (Bool-cases (ltb size bytes)) [
  | inl small ↦
      rw small ((λ h. absurd (some_is_not h)), λ le. absurd (omega (arith, ltb→lt _ _ small)))
  | inr fits ↦ rw fits ((λ _. ltb-not _ _ fits), λ _. refl)
]

module _ (b : Binary) (capacity bytes : ℕ) (some_cap : 1 ≤ capacity) (word : capacity ≤ size_max)
    (solid : 0 < b.elem_size) (h : bytes_needed b capacity ≡ ok bytes) where
  size_lem : (bytes ≡ true_size b capacity) × (true_size b capacity ≤ size_max)
  size_lem = elim (bytes_needed_exact b capacity solid word) [
    | inl (e, le) ↦ (ok-inj (sym h ∙ e), le)
    | inr (e, lt) ↦ absurd (ok-err (sym h ∙ e))
  ]

  slot_count_lem : slot_count capacity ≡ capacity + 1
  unfolding slot_count
  slot_count_lem =
      let le = size_lem.1 in
      rw (le→ltb capacity 1 some_cap)
        (mod-eq_of_lt (omega (arith, le, product_le b capacity solid word)))

  needed_lem : needed b (init_control b (slot_count capacity) bytes) ≡ bytes
  unfolding init_control
  needed_lem =
      let (e, le) = size_lem in
      let small : u32 (sizeof_control b) ≡ sizeof_control b =
        mod-eq_of_lt (omega (arith, line_le b.platform)) in
      rw (small, slot_count_lem) (no_wrap b capacity solid word le ∙ sym e)

  -- A capacity of at least 1, a `std::size_t`, that `bytesNeeded` accepts, with the element's size (at least a byte)
  -- and its alignment in 32 bits: what `create` writes for an object of `bytes`, `validate` of the
  -- same binary accepts exactly in a mapping of `bytes` or more.
  pub create-validate :
      b.elem_size < 2 ^ 32
      → b.elem_align < 2 ^ 32
      → (size : ℕ)
      → (validate b (init_control b (slot_count capacity) bytes) size ≡ none) ↔ (bytes ≤ size)
  unfolding validate init_control
  create-validate size_fits align_fits size =
      let line : u32 (cache_line b.platform) ≡ cache_line b.platform =
        mod-eq_of_lt (omega (arith, line_le b.platform)) in
      let elem : u32 b.elem_size ≡ b.elem_size = mod-eq_of_lt size_fits in
      let align : u32 b.elem_align ≡ b.elem_align = mod-eq_of_lt align_fits in
      rw
        (
          needed_lem,
          line,
          elem,
          align,
          ==_self (cache_line b.platform),
          ==_self b.elem_size,
          ==_self b.elem_align,
          le→ltb bytes bytes (omega arith),
        )
        (accepts_iff bytes size _)

module _ (b : Binary) (c : ControlBlock) (k : ℕ) (whole : k * b.elem_size ≡ 2 ^ 64) where
  needed_wraps : needed b (record c { capacity = c.capacity + k }) ≡ needed b c
  needed_wraps =
      let e : (c.capacity + k) * b.elem_size ≡ c.capacity * b.elem_size + k * b.elem_size =
        add-mul c.capacity k b.elem_size in
      ap (add64 c.slots_offset) (rw (e, whole) (omega arith))

  -- `validate` does not see `2^64 / sizeof(T)` more slots in the capacity: its product wraps.
  pub validate_wraps :
      (size : ℕ) → validate b (record c { capacity = c.capacity + k }) size ≡ validate b c size
  unfolding validate
  validate_wraps size = rw needed_wraps refl

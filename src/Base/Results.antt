-- ===== src/Base/Results.antt =====
-- What a throwing function returns: its value, or the exception. One constructor for each `throw`.
use Prim.Native.Nat.{ℕ}
use shm_spsc.Base.Int.{ℤ}

pub data Error : Type 0 where
  name_prefix : Error
  name_too_long : Error
  name_slash : Error
  zero_bytes : Error
  system_error : ℕ → Error
  zero_size : Error
  capacity_overflow : ℕ → Error
  bad_magic : Error
  version_mismatch : ℕ → Error
  cache_line_mismatch : ℕ → Error
  layout_mismatch : ℕ → ℕ → Error
  too_small : ℕ → Error
  already_attached : ℤ → Error
  timed_out : Error

pub data Result {ℓ} (A : Type ℓ) : Type ℓ where
  ok : A → Result A
  err : Error → Result A

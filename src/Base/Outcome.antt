-- ===== src/Base/Outcome.antt =====
-- How a run of C code ends: it returns a value, it leaves the process by `exit` or `abort`, it
-- touches memory that it does not own, or the fuel that bounds the model's loops is used up.
use Prim.Native.Nat.{ℕ, zero, suc}
use mathlib.Core.Bool.{Bool, true, false}
use operating_sys.Base.Tests.{leb, if◌then◌else◌}
use mathlib.Core.List.{List, [], ◌∷◌}

pub data Outcome {ℓ} (A : Type ℓ) : Type ℓ where
  done : A → Outcome A
  exited : ℕ → Outcome A
  aborted : Outcome A
  fault : Outcome A
  out_of_fuel : Outcome A

infixl 5 ◌>>=◌ ◌>>◌
abbrev pub ◌>>=◌ {ℓ κ} : {A : Type ℓ} {B : Type κ} → Outcome A → (A → Outcome B) → Outcome B
done a >>= k = k a
exited n >>= k = exited n
aborted >>= k = aborted
fault >>= k = fault
out_of_fuel >>= k = out_of_fuel

abbrev pub ◌>>◌ {ℓ} : {B : Type ℓ} → Outcome (Unit {0}) → Outcome B → Outcome B
m >> k = m >>= λ _. k

-- A read through a pointer into a string or an array: a fault past its end.
abbrev pub char_at {ℓ} : {A : Type ℓ} → List A → ℕ → Outcome A
char_at [] i = fault
char_at (x ∷ xs) zero = done x
char_at (x ∷ xs) (suc i) = char_at xs i

-- An `int` result. `negsuc n` is -(n + 1).
pub data ℤ : Type 0 where
  pos : ℕ → ℤ
  negsuc : ℕ → ℤ

abbrev pub minus : ℕ → ℤ
minus zero = pos 0
minus (suc n) = negsuc n

-- `if (ret)`, `ret < 0`
abbrev pub nonzero : ℤ → Bool
nonzero (pos zero) = false
nonzero (pos (suc n)) = true
nonzero (negsuc n) = true

abbrev pub negative : ℤ → Bool
negative (pos n) = false
negative (negsuc n) = true

-- A write of `n` bytes at the start of a buffer of `size` bytes.
abbrev pub within : ℕ → ℕ → Outcome (Unit {0})
within n size = if leb n size then done tt else fault

-- ===== src/Base/Digits.antt =====
-- Numbers as text: the decimal digits that `%d` prints, and back.
use Prim.Native.Nat.{ℕ, zero, suc, ◌+◌, ◌-◌, ◌/◌, ◌%◌}
use mathlib.Core.List.{List, [], ◌∷◌, ◌++◌}
use operating_sys.Base.Tests.{ltb, if◌then◌else◌}

-- The digits of `n`, at most `fuel` of them, the last one first computed.
unfoldable pub digits_of : (base fuel n : ℕ) → List ℕ
digits_of base zero n = []
digits_of base (suc fuel) n =
    let front = digits_of base fuel (n / base) in
    if ltb n base then n ∷ [] else front ++ n % base ∷ []

-- the character of a digit, in lower case above 9
abbrev pub digit_char : ℕ → ℕ
digit_char d = if ltb d 10 then d + b'0' else d - 10 + b'a'

abbrev pub chars_of : List ℕ → List ℕ
chars_of [] = []
chars_of (d ∷ ds) = digit_char d ∷ chars_of ds

-- A number has at most as many decimal digits as one more than itself.
unfoldable pub decimal : ℕ → List ℕ
unfolding digits_of
decimal n = chars_of (digits_of 10 (n + 1) n)

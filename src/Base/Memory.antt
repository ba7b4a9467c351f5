-- ===== src/Base/Memory.antt =====
-- Arrays of bytes with the bounds that C leaves to the programmer: an access past the end is a
-- fault, and a string ends at its first NUL.
use mathlib.Core.List.{List, [], ◌∷◌, ◌++◌}
use Prim.Native.Nat.{ℕ, zero, suc, ◌+◌, ◌≤◌, ◌<◌}
use mathlib.Core.Path.{◌≡◌, refl, ap}
use mathlib.Core.Logic.{◌≢◌}
use native.Mathlib.Omega.{arith}
use operating_sys.Base.Tests.{leb, ◌==◌, if◌then◌else◌}
use operating_sys.Base.Lists.{length, drop, All, length-append}
use operating_sys.Base.Outcome.{Outcome, done, fault, ◌>>=◌}

abbrev pub overwrite : List ℕ → List ℕ → List ℕ
overwrite xs [] = xs
overwrite [] (b ∷ bs) = []
overwrite (x ∷ xs) (b ∷ bs) = b ∷ overwrite xs bs

abbrev pub splice : List ℕ → ℕ → List ℕ → List ℕ
splice xs zero bs = overwrite xs bs
splice [] (suc i) bs = []
splice (x ∷ xs) (suc i) bs = x ∷ splice xs i bs

-- `memcpy(mem + i, bs, length bs)`
unfoldable pub store_bytes : List ℕ → ℕ → List ℕ → Outcome (List ℕ)
store_bytes mem i [] = done mem
store_bytes mem i (b ∷ bs) =
    if leb (i + length (b ∷ bs)) (length mem) then done (splice mem i (b ∷ bs)) else fault

abbrev pub string_of : List ℕ → Outcome (List ℕ)
string_of [] = fault
string_of (c ∷ cs) = if c == 0 then done [] else do r ← string_of cs; done (c ∷ r)

-- the string that starts at `mem + i`
unfoldable pub c_string : List ℕ → ℕ → Outcome (List ℕ)
c_string mem i = string_of (drop i mem)

-- no NUL among the bytes
abbrev pub IsText : List ℕ → Type 0
IsText c = All (λ b. b ≢ 0) c

pub length-overwrite : (xs bs : List ℕ) → length (overwrite xs bs) ≡ length xs
length-overwrite xs [] = refl
length-overwrite [] (b ∷ bs) = refl
length-overwrite (x ∷ xs) (b ∷ bs) = ap suc (length-overwrite xs bs)

pub length-splice : (xs : List ℕ) (i : ℕ) (bs : List ℕ) → length (splice xs i bs) ≡ length xs
length-splice xs zero bs = length-overwrite xs bs
length-splice [] (suc i) bs = refl
length-splice (x ∷ xs) (suc i) bs = ap suc (length-splice xs i bs)

pub overwrite_lem :
    (xs bs : List ℕ) → length bs ≤ length xs → overwrite xs bs ≡ bs ++ drop (length bs) xs
overwrite_lem xs [] h = refl
overwrite_lem [] (b ∷ bs) h = absurd (omega arith)
overwrite_lem (x ∷ xs) (b ∷ bs) h = ap (◌∷◌ b) (overwrite_lem xs bs (omega arith))

pub splice-append : (xs ys bs : List ℕ) → splice (xs ++ ys) (length xs) bs ≡ xs ++ overwrite ys bs
splice-append [] ys bs = refl
splice-append (x ∷ xs) ys bs = ap (◌∷◌ x) (splice-append xs ys bs)

pub drop-append : (xs ys : List ℕ) → drop (length xs) (xs ++ ys) ≡ ys
drop-append [] ys = refl
drop-append (x ∷ xs) ys = drop-append xs ys

pub length-drop_add : (n : ℕ) (xs : List ℕ) → n ≤ length xs → length (drop n xs) + n ≡ length xs
length-drop_add zero xs h = omega arith
length-drop_add (suc n) [] h = absurd (omega arith)
length-drop_add (suc n) (x ∷ xs) h = omega (arith, length-drop_add n xs (omega arith))

-- A write that fits, at the end of a known front.
pub store_bytes-append :
    (xs ys bs : List ℕ)
    → length bs ≤ length ys
    → store_bytes (xs ++ ys) (length xs) bs ≡ done (xs ++ (bs ++ drop (length bs) ys))
unfolding store_bytes
store_bytes-append xs ys [] h = refl
store_bytes-append xs ys (b ∷ bs) h =
    ground (arith, length-append xs ys, splice-append xs ys (b ∷ bs), overwrite_lem ys (b ∷ bs) h)

-- A write that does not fit.
pub store_bytes_fault :
    (mem : List ℕ) (i : ℕ) (bs : List ℕ)
    → 0 < length bs
    → length mem < i + length bs
    → store_bytes mem i bs ≡ fault
unfolding store_bytes
store_bytes_fault mem i [] p h = absurd (omega arith)
store_bytes_fault mem i (b ∷ bs) p h = ground arith

pub string_of-text : (c rest : List ℕ) → IsText c → string_of (c ++ 0 ∷ rest) ≡ done c
string_of-text [] rest t = refl
string_of-text (b ∷ c) rest t = ground (arith, t.0, string_of-text c rest t.1)

pub c_string-append :
    (xs c rest : List ℕ) → IsText c → c_string (xs ++ (c ++ 0 ∷ rest)) (length xs) ≡ done c
unfolding c_string
c_string-append xs c rest t = rw (drop-append xs (c ++ 0 ∷ rest)) (string_of-text c rest t)

-- A write that fits, anywhere.
pub store_bytes_fits :
    (mem : List ℕ) (i : ℕ) (bs : List ℕ)
    → 0 < length bs
    → i + length bs ≤ length mem
    → store_bytes mem i bs ≡ done (splice mem i bs)
unfolding store_bytes
store_bytes_fits mem i [] p h = absurd (omega arith)
store_bytes_fits mem i (b ∷ bs) p h = ground arith

-- What `printf("%s")` shows of bytes that a NUL follows: all up to the first NUL.
abbrev pub until_nul : List ℕ → List ℕ
until_nul [] = []
until_nul (c ∷ cs) = if c == 0 then [] else c ∷ until_nul cs

-- ===== src/Pagemap/Parse.antt =====
-- What the parser of os_02/lab_04/src/part_01/pagemap.c reads from a line as the kernel prints it.
use operating_sys.Base.{
  ℕ, ◌+◌, ◌*◌, ◌-◌, leb, ◌==◌, ◌&&◌, true, dec_lt, ◌%◌, ◌≤◌, ◌<◌, ◌≡◌, refl, ◌∙◌, List, [], ◌∷◌,
  ◌++◌, map, arith, ltb, if◌then◌else◌, false, All,
}
use operating_sys.Pagemap.{word, is_last, read_hex, skip_to, parse_line}

-- a digit in base 16 as a byte
abbrev pub digit : ℕ → ℕ
digit d = if ltb d 10 then 48 + d else 87 + d

unfoldable pub hex_value : (acc : ℕ) → List ℕ → ℕ
hex_value acc [] = acc
hex_value acc (d ∷ ds) = hex_value (acc * 16 + d) ds

le-hex_value : (acc : ℕ) (ds : List ℕ) → acc ≤ hex_value acc ds
unfolding hex_value
le-hex_value acc [] = omega arith
le-hex_value acc (d ∷ ds) = omega (arith, le-hex_value (acc * 16 + d) ds)

small : (x : ℕ) → x < word → x % word ≡ x
small x below = omega arith

read_hex-digit :
    (stop acc d : ℕ) (rest : List ℕ)
    → stop < 48
    → d < 16
    → acc * 16 + d < word
    → is_last rest ≡ false
    → read_hex stop acc (digit d ∷ rest) ≡ read_hex stop (acc * 16 + d) rest
unfolding read_hex
read_hex-digit stop acc d [] low below fits more = cc
read_hex-digit stop acc d (r ∷ rest) low below fits more =
    let not_stop : (digit d == stop) ≡ false = ground arith in
    let scaled = small (acc * 16) (omega arith) in
    let sum = small (acc * 16 + d) fits in
    rw (not_stop, scaled)
      (elim (dec_lt d 10) [
        | yes few ↦
            let is_digit : (leb 48 (digit d) && leb (digit d) 57) ≡ true = ground arith in
            let value : acc * 16 + (digit d - 48) ≡ acc * 16 + d = ground arith in
            rw (is_digit, value, sum) refl
        | no many ↦
            let no_digit : (leb 48 (digit d) && leb (digit d) 57) ≡ false = ground arith in
            let is_letter : (leb 97 (digit d) && leb (digit d) 102) ≡ true = ground arith in
            let value : acc * 16 + (digit d - 97 + 10) ≡ acc * 16 + d = ground arith in
            rw (no_digit, is_letter, value, sum) refl
      ])

stops_at_once :
    (stop acc : ℕ) (rest : List ℕ) → read_hex stop acc (stop ∷ rest) ≡ (acc, stop ∷ rest)
unfolding read_hex
stops_at_once stop acc rest = ground arith

more_follow :
    (ds : List ℕ) (stop : ℕ) (rest : List ℕ) → is_last (map digit ds ++ stop ∷ rest) ≡ false
more_follow [] stop rest = refl
more_follow (d ∷ ds) stop rest = refl

pub read_hex-hex_value :
    (stop acc : ℕ) (ds rest : List ℕ)
    → stop < 48
    → All (λ d. d < 16) ds
    → hex_value acc ds < word
    → read_hex stop acc (map digit ds ++ stop ∷ rest) ≡ (hex_value acc ds, stop ∷ rest)
unfolding hex_value
read_hex-hex_value stop acc [] rest low all fits = stops_at_once stop acc rest
read_hex-hex_value stop acc (d ∷ ds) rest low (below, all) fits =
    read_hex-digit stop acc d (map digit ds ++ stop ∷ rest) low below
      (omega (arith, le-hex_value (acc * 16 + d) ds)) (more_follow ds stop rest)
    ∙ read_hex-hex_value stop (acc * 16 + d) ds rest low all fits

-- A line that starts with two numbers in base 16, of lower-case digits and below 2 ^ 64, with a
-- minus sign between them and a space behind them, is read as these two numbers.
pub parse_line-hex_value :
    (lo hi rest : List ℕ)
    → All (λ d. d < 16) lo
    → All (λ d. d < 16) hi
    → hex_value 0 lo < word
    → hex_value 0 hi < word
    → ((parse_line (map digit lo ++ 45 ∷ (map digit hi ++ 32 ∷ rest))).low ≡ hex_value 0 lo)
      × ((parse_line (map digit lo ++ 45 ∷ (map digit hi ++ 32 ∷ rest))).high ≡ hex_value 0 hi)
unfolding parse_line skip_to
parse_line-hex_value lo hi rest los his fits fits' =
    rw
      (
        read_hex-hex_value 45 0 lo (map digit hi ++ 32 ∷ rest) (omega arith) los fits,
        read_hex-hex_value 32 0 hi rest (omega arith) his fits',
      )
      (refl, refl)

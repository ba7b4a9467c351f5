-- ===== src/Keyboard/Decode.antt =====
-- What `get_ascii` returns, against a table of the keys.
use operating_sys.Base.{
  ℕ, zero, suc, ◌+◌, ◌≤◌, ◌<◌, ◌≡◌, refl, ap, subst, Bool, true, false, ◌&&◌, List, [], ◌∷◌, arith,
  dec_lt, ℕ_discrete, ◌==◌, if◌then◌else◌, All,
}
use operating_sys.Base.Outcome.{Outcome, done, exited, aborted, fault, out_of_fuel}
use operating_sys.Keyboard.{clear_release, plain_ascii, get_ascii}

-- Scan code and character of each key that the modules know, written out from the keyboard.
abbrev pub keys : List (ℕ × ℕ)
keys =
    (2, b'1')
    ∷ (3, b'2')
    ∷ (4, b'3')
    ∷ (5, b'4')
    ∷ (6, b'5')
    ∷ (7, b'6')
    ∷ (8, b'7')
    ∷ (9, b'8')
    ∷ (10, b'9')
    ∷ (11, b'0')
    ∷ (16, b'q')
    ∷ (17, b'w')
    ∷ (18, b'e')
    ∷ (19, b'r')
    ∷ (20, b't')
    ∷ (21, b'y')
    ∷ (22, b'u')
    ∷ (23, b'i')
    ∷ (24, b'o')
    ∷ (25, b'p')
    ∷ (28, 10)
    ∷ (30, b'a')
    ∷ (31, b's')
    ∷ (32, b'd')
    ∷ (33, b'f')
    ∷ (34, b'g')
    ∷ (35, b'h')
    ∷ (36, b'j')
    ∷ (37, b'k')
    ∷ (38, b'l')
    ∷ (44, b'z')
    ∷ (45, b'x')
    ∷ (46, b'c')
    ∷ (47, b'v')
    ∷ (48, b'b')
    ∷ (49, b'n')
    ∷ (50, b'm')
    ∷ (57, b' ')
    ∷ []

unfoldable pub find_key : List (ℕ × ℕ) → ℕ → ℕ
find_key [] s = b'?'
find_key ((k, c) ∷ ks) s = if k == s then c else find_key ks s

-- the outcome is a value, and that value is `d`
abbrev returns_char : Outcome ℕ → ℕ → Bool
returns_char (done c) d = c == d
returns_char (exited n) d = false
returns_char aborted d = false
returns_char fault d = false
returns_char out_of_fuel d = false

returns_char_sound : (o : Outcome ℕ) (d : ℕ) → returns_char o d ≡ true → o ≡ done d
returns_char_sound (done c) d h = ground arith
returns_char_sound o d h = cc

-- The test `good` on the `count` codes from `code` on.
scan : (good : ℕ → Bool) (count code : ℕ) → Bool
scan good zero code = true
scan good (suc count) code = good code && scan good count (code + 1)

scan_sound :
    (good : ℕ → Bool) (count code s : ℕ)
    → scan good count code ≡ true
    → code ≤ s
    → s < code + count
    → good s ≡ true
unfolding scan
scan_sound good zero code s all from to = absurd (omega arith)
scan_sound good (suc count) code s all from to = elim (ℕ_discrete code s) [
  | yes e ↦ subst (λ c. good c ≡ true) e (ground arith)
  | no ne ↦ scan_sound good count (code + 1) s (ground arith) (omega arith) (omega arith)
]

agrees : ℕ → Bool
agrees s = returns_char (plain_ascii s) (find_key keys s)

agrees_table : scan agrees 58 0 ≡ true
unfolding scan agrees plain_ascii find_key
agrees_table = refl

pub find_key_above :
    (ks : List (ℕ × ℕ)) (s : ℕ) → All (λ k. k.0 < 58) ks → 58 ≤ s → find_key ks s ≡ b'?'
unfolding find_key
find_key_above [] s a h = refl
find_key_above ((k, c) ∷ ks) s a h = ground (arith, find_key_above ks s a.1 h)

pub plain_ascii_above : (s : ℕ) → 58 ≤ s → plain_ascii s ≡ done b'?'
unfolding plain_ascii
plain_ascii_above s h = ground arith

plain_ascii-find_key : (s : ℕ) → plain_ascii s ≡ done (find_key keys s)
unfolding agrees
plain_ascii-find_key s = elim (dec_lt s 58) [
  | yes h ↦
      returns_char_sound _ _ (scan_sound agrees 58 0 s agrees_table (omega arith) (omega arith))
  | no h ↦ rw (plain_ascii_above s (omega arith), find_key_above keys s (omega arith) (omega arith))
]

-- `get_ascii` never reads outside its four strings, whatever the scan code is: it returns the
-- character that the table of keys gives for the code with the release bit taken out, and the
-- question mark for a code that is not in the table.
pub get_ascii-find_key : (s : ℕ) → get_ascii s ≡ done (find_key keys (clear_release s))
unfolding get_ascii
get_ascii-find_key s = plain_ascii-find_key (clear_release s)

-- A key that is released (bit 7 set) gives the character of the same key pressed.
pub get_ascii_released : (s : ℕ) → s < 128 → get_ascii (s + 128) ≡ get_ascii s
unfolding get_ascii
get_ascii_released s h = ap plain_ascii (same s h)
  where
    same : (s : ℕ) → s < 128 → clear_release (s + 128) ≡ clear_release s
    same s h = ground arith

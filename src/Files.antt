-- ===== src/Files.antt =====
-- os_02/lab_05/src: programs that open one file more than once. A file is the list of its bytes; an
-- open file is an offset into it, which every descriptor, and every stream over it, moves.
pub mod Doubled
pub mod Stream
pub mod Letters
pub mod Shared
pub mod Own
pub mod Race
mod Tests
use operating_sys.Base.{
  ℕ, zero, suc, ◌+◌, ◌-◌, ◌*◌, ◌/◌, ◌%◌, ◌^◌, ◌≤◌, ◌<◌, ◌≡◌, refl, sym, ap, ◌∙◌, subst, ◌≢◌, ◌↔◌,
  ◌⊎◌, inl, inr, Bool, true, false, not, ◌&&◌, ◌||◌, Option, none, some, List, [], ◌∷◌, ◌++◌, map,
  append_assoc, append-nil, arith, dec_lt, ℕ_discrete, ltb, leb, ◌==◌, if◌then◌else◌, ltb→lt,
  lt→ltb, leb→le, ==_iff, tests, Bool-cases, Option-cases, update, length, get_elem?, get_or, set,
  take, drop, replicate, All, length-append, length-take, take-append, length-set, length-replicate,
  get_elem?-set_self, get_elem?-set_ne, take-of_le,
}
use operating_sys.Base.Outcome.{
  Outcome, done, exited, aborted, fault, out_of_fuel, ◌>>=◌, ◌>>◌, char_at, ℤ, pos, negsuc, minus,
  nonzero, negative, within,
}

-- What `read` gives of a file from an offset on, at most `n` bytes.
abbrev pub read_bytes : (n : ℕ) (file : List ℕ) (offset : ℕ) → List ℕ
read_bytes n file offset = take n (drop offset file)

-- `write` of one byte; a gap behind the end is filled with NULs.
unfoldable pub write_byte : (file : List ℕ) (offset byte : ℕ) → List ℕ
write_byte [] zero b = b ∷ []
write_byte [] (suc i) b = 0 ∷ write_byte [] i b
write_byte (x ∷ xs) zero b = b ∷ xs
write_byte (x ∷ xs) (suc i) b = x ∷ write_byte xs i b

-- `read` of one byte: the byte, or `none` at the end and where `open` has failed.
abbrev pub read_one : (file : Option (List ℕ)) (offset : ℕ) → Option ℕ
read_one none offset = none
read_one (some file) offset = get_elem? file offset

abbrev pub bytes_of : Option ℕ → List ℕ
bytes_of none = []
bytes_of (some b) = b ∷ []

abbrev pub advance : ℕ → Option ℕ → ℕ
advance offset none = offset
advance offset (some b) = offset + 1

abbrev pub got : Option ℕ → Bool
got none = false
got (some b) = true

-- The loop of 02.c with `fuel` rounds, on two open files: what it writes. Its condition holds at
-- the start, and then if both reads of the round have given a byte.
unfoldable pub two_opens : (file : Option (List ℕ)) (fuel offset1 offset2 : ℕ) → Outcome (List ℕ)
two_opens file zero o1 o2 = out_of_fuel
two_opens file (suc fuel) o1 o2 =
    let c1 = read_one file o1 in
    let c2 = read_one file o2 in
    let rest = two_opens file fuel (advance o1 c1) (advance o2 c2) in
    if got c1 && got c2
    then (do out ← rest; done (bytes_of c1 ++ (bytes_of c2 ++ out)))
    else done (bytes_of c1 ++ bytes_of c2)

-- `main` of 02.c
unfoldable pub main_02 : (file : Option (List ℕ)) (fuel : ℕ) → Outcome (List ℕ)
unfolding two_opens
main_02 file fuel = do out ← two_opens file fuel 0 0; done (out ++ 10 ∷ [])

abbrev pub buf_n : ℕ
buf_n = 20

-- A stream: the bytes that wait in its buffer. `offset` is that of the open file below it.
abbrev pub next_byte : (waiting : List ℕ) (offset : ℕ) → Option ℕ × List ℕ × ℕ
next_byte [] offset = (none, [], offset)
next_byte (b ∷ bs) offset = (some b, bs, offset)

-- `fscanf(fs, "%c", &c)`: an empty buffer is filled by one `read` of its size.
unfoldable pub scan_char : (file : List ℕ) (waiting : List ℕ) (offset : ℕ) → Option ℕ × List ℕ × ℕ
scan_char file [] offset =
    next_byte (read_bytes buf_n file offset) (offset + length (read_bytes buf_n file offset))
scan_char file (b ∷ bs) offset = (some b, bs, offset)

-- The loop of 01.c with `fuel` rounds. Both calls read from the first stream.
unfoldable pub one_stream :
    (file : List ℕ) (fuel : ℕ) (waiting : List ℕ) (offset : ℕ) → Outcome (List ℕ)
one_stream file zero waiting offset = out_of_fuel
one_stream file (suc fuel) waiting offset =
    let first = scan_char file waiting offset in
    let second = scan_char file first.1 first.2 in
    let rest = one_stream file fuel second.1 second.2 in
    if got first.0 || got second.0
    then (do out ← rest; done (bytes_of first.0 ++ (bytes_of second.0 ++ out)))
    else done []

-- `main` of 01.c; the flags are set before the first round.
unfoldable pub main_01 : (file : List ℕ) (fuel : ℕ) → Outcome (List ℕ)
unfolding one_stream
main_01 file fuel = do out ← one_stream file fuel [] 0; done (out ++ 10 ∷ [])

-- The loop of 03.c over the letters from `c` on, `n` of them: an odd one goes to the first
-- descriptor, an even one to the second.
unfoldable pub write_letters : (n c offset1 offset2 : ℕ) → List ℕ → List ℕ
write_letters zero c o1 o2 file = file
write_letters (suc n) c o1 o2 file =
    let even = c % 2 == 0 in
    write_letters n (c + 1) (if even then o1 else o1 + 1) (if even then o2 + 1 else o2)
      (write_byte file (if even then o2 else o1) c)

-- `main` of 03.c
unfoldable pub main_03 : List ℕ → List ℕ
unfolding write_letters
main_03 file = write_letters 26 97 0 0 file

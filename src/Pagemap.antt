-- ===== src/Pagemap.antt =====
-- os_02/lab_04/src/part_01/pagemap.c: the lines of /proc/PID/maps and the entries of the pages.
pub mod Parse
pub mod Pages
pub mod Maps
mod Tests
use operating_sys.Base.{
  ℕ, zero, suc, ◌+◌, ◌-◌, ◌*◌, ◌/◌, ◌%◌, ◌^◌, ◌≤◌, ◌<◌, ◌≡◌, refl, sym, ap, ◌∙◌, subst, ◌≢◌, ◌↔◌,
  ◌⊎◌, inl, inr, Bool, true, false, not, ◌&&◌, ◌||◌, Option, none, some, List, [], ◌∷◌, ◌++◌, map,
  append_assoc, append-nil, arith, dec_lt, ℕ_discrete, ltb, leb, ◌==◌, if◌then◌else◌, ltb→lt,
  lt→ltb, leb→le, ==_iff, tests, Bool-cases, Option-cases, update, length, get_elem?, get_or, set,
  take, drop, replicate, All, length-append, length-take, take-append, length-set, length-replicate,
  get_elem?-set_self, get_elem?-set_ne, take-of_le,
}
use operating_sys.Base.Outcome.{
  Outcome, done, exited, aborted, fault, out_of_fuel, ◌>>=◌, ◌>>◌, char_at, ℤ, pos, negsuc, minus,
  nonzero, negative, within,
}

-- 2 ^ 64, where an address wraps around
abbrev pub word : ℕ
word = 18446744073709551616

-- nothing is behind this byte
abbrev pub is_last : List ℕ → Bool
is_last [] = true
is_last (c ∷ cs) = false

-- One of the two loops that read a number in base 16, up to the byte `stop`, the last one of the
-- buffer or behind a byte that is no digit; `acc` is what was read. Behind it is the rest of the
-- line.
unfoldable pub read_hex : (stop acc : ℕ) → List ℕ → ℕ × List ℕ
read_hex stop acc [] = (acc, [])
read_hex stop acc (c ∷ cs) =
    let scaled = acc * 16 % word in
    if (c == stop) || is_last cs
    then (acc, c ∷ cs)
    else if leb 48 c && leb c 57
    then read_hex stop ((scaled + (c - 48)) % word) cs
    else if leb 97 c && leb c 102
    then read_hex stop ((scaled + (c - 97 + 10)) % word) cs
    else (scaled, cs)

unfoldable pub skip_to : (stop : ℕ) → List ℕ → List ℕ
skip_to stop [] = []
skip_to stop (c ∷ cs) = if (c == stop) || is_last cs then c ∷ cs else skip_to stop cs

unfoldable pub skip_spaces : List ℕ → List ℕ
skip_spaces [] = []
skip_spaces (c ∷ cs) = if (c == 32) && not (is_last cs) then skip_spaces cs else c ∷ cs

-- `if(buffer[x] == stop) x ++;`
abbrev pub skip_byte : (stop : ℕ) → List ℕ → List ℕ
skip_byte stop [] = []
skip_byte stop (c ∷ cs) = if c == stop then cs else c ∷ cs

-- the four fields between the addresses and the name
unfoldable pub skip_fields : ℕ → List ℕ → List ℕ
unfolding skip_to
skip_fields zero cs = cs
skip_fields (suc n) cs = skip_fields n (skip_to 32 (drop 1 cs))

pub record Range : Type 0 where
  pub low : ℕ
  pub high : ℕ
  pub lib_name : List ℕ

-- What is left of the line at its name. A line with too few fields gives nothing: the loop over
-- them has left the buffer.
unfoldable pub name_of : List ℕ → List ℕ
unfolding read_hex skip_to skip_spaces skip_fields
name_of line =
    let first = read_hex 45 0 line in
    let second = read_hex 32 0 (skip_byte 45 (skip_to 45 first.1)) in
    skip_spaces (skip_fields 4 second.1)

-- The bytes before the next newline, or before the last byte of the buffer.
unfoldable pub before_newline : List ℕ → List ℕ
before_newline [] = []
before_newline (c ∷ cs) = if (c == 10) || is_last cs then [] else c ∷ before_newline cs

-- What is read from a line's first byte on; the list is the buffer from there to its end, and its
-- last byte stops every loop. A minus sign is 45, a space 32. The name, which `%s` prints, holds no
-- NUL.
unfoldable pub parse_line : List ℕ → Range
unfolding read_hex skip_to name_of before_newline
parse_line line =
    let first = read_hex 45 0 line in
    let second = read_hex 32 0 (skip_byte 45 (skip_to 45 first.1)) in
    record { low = first.0; high = second.0; lib_name = before_newline (name_of line) }

-- The parts of an entry that `print_page` shows.
pub record Page : Type 0 where
  pub address : ℕ
  pub pfn : ℕ
  pub soft_dirty : ℕ
  pub file_shared : ℕ
  pub swapped : ℕ
  pub present : ℕ

unfoldable pub print_page : (address entry : ℕ) → Page
print_page address entry = record {
  address = address;
  pfn = entry % 2 ^ 55;
  soft_dirty = entry / 2 ^ 55 % 2;
  file_shared = entry / 2 ^ 61 % 2;
  swapped = entry / 2 ^ 62 % 2;
  present = entry / 2 ^ 63 % 2;
}

-- `pread` gives the entry at an offset of the page map; the loop stops where it does not.
unfoldable pub handle_virtual_range :
    (pread : ℕ → Option ℕ) (fuel i end_address : ℕ) → Outcome (List Page)
unfolding print_page
handle_virtual_range pread zero i end_address = if ltb i end_address then out_of_fuel else done []
handle_virtual_range pread (suc fuel) i end_address =
    let rest = handle_virtual_range pread fuel ((i + 4096) % word) end_address in
    if ltb i end_address
    then elim (pread (i / 4096 * 8)) [
      | none ↦ done []
      | some entry ↦ do pages ← rest; done (print_page i entry ∷ pages)
    ]
    else done []

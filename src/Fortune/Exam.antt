-- ===== src/Fortune/Exam.antt =====
-- os_02/lab_04/src/part_02/temp/procfd_exam.c: the same write handler over a pot that the load
-- allocates only when it fails.
use operating_sys.Base.{
  ℕ, zero, suc, ◌+◌, ◌/◌, ◌%◌, ◌≡◌, refl, Bool, true, false, not, Option, none, some, List, [], ◌∷◌,
  ◌++◌, arith, ltb, ◌==◌, if◌then◌else◌, length, ap,
}
use operating_sys.Base.Outcome.{Outcome, done, fault, ◌>>=◌, ℤ, pos, minus}
use operating_sys.Base.Memory.{store_bytes, until_nul}
use operating_sys.Fortune.{max_cookie_len, abl_spc, arriving, terminate}

-- `cookie_pot` is `none` while it is NULL.
pub record Cookies : Type 0 where
  pub cookie_pot : Option (List ℕ)
  pub cookie_index : ℕ
  pub next_fortune : ℕ

abbrev pub null_state : Cookies
null_state = record { cookie_pot = none; cookie_index = 0; next_fortune = 0 }

-- An access to the pot: a fault through NULL.
abbrev with_pot {ℓ} : {A : Type ℓ} → Option (List ℕ) → (List ℕ → Outcome A) → Outcome A
with_pot none k = fault
with_pot (some pot) k = k pot

pub fortune_write : Cookies → (buff : List ℕ) → (uncopied : ℕ) → Outcome (ℤ × Cookies)
fortune_write p buff uncopied =
    if ltb (abl_spc p.cookie_index) (length buff)
    then done (minus 28, p)
    else with_pot p.cookie_pot λ pot. do
      pot' ← store_bytes pot p.cookie_index (arriving buff uncopied)
      if not (uncopied == 0) then done (minus 14, record p { cookie_pot = some pot' }) else do
        pot'' ← terminate pot' (p.cookie_index + length buff)
        done (
          pos (length buff),
          record p { cookie_pot = some pot''; cookie_index = p.cookie_index + length buff },
        )

-- `entry_made` is whether `proc_create` succeeds, `pot` what `vmalloc` would return.
unfoldable pub procfs4_init : Cookies → (entry_made : Bool) → (pot : Option (List ℕ)) → ℤ × Cookies
procfs4_init p entry_made pot =
    if not entry_made
    then (minus 12, record p { cookie_pot = pot })
    else (pos 0, record p { next_fortune = 0; cookie_index = 0 })

-- After every load that returns 0, a write is refused if it is longer than a page and one byte,
-- and any other write goes through the NULL pointer.
pub procfs4_init-fortune_write :
    (entry_made : Bool) (pot : Option (List ℕ)) (buff : List ℕ) (uncopied : ℕ)
    → (procfs4_init null_state entry_made pot).0 ≡ pos 0
    → fortune_write (procfs4_init null_state entry_made pot).1 buff uncopied
      ≡ (if ltb (max_cookie_len + 1) (length buff) then done (minus 28, null_state) else fault)
unfolding procfs4_init fortune_write
procfs4_init-fortune_write entry_made pot buff uncopied loaded = ground arith

-- the static counter of `my_seq_start`, an unsigned long, and `*pos`
pub record Sequence : Type 0 where
  pub counter : ℕ
  pub position : ℕ

-- Whether a sequence begins, and what `*pos` is then.
pub my_seq_start : Sequence → Bool × Sequence
my_seq_start s = if s.position == 0 then (true, s) else (false, record s { position = 0 })

-- It always returns NULL, which ends the sequence.
pub my_seq_next : Sequence → Sequence
my_seq_next s = record {
  counter = (s.counter + 1) % 18446744073709551616;
  position = s.position + 1;
}

-- the bytes of a number in memory, the lowest first
pub bytes_of : (size n : ℕ) → List ℕ
bytes_of zero n = []
bytes_of (suc size) n = n % 256 ∷ bytes_of size (n / 256)

-- The counter itself is printed as a string, not its digits: `seq: ` and its bytes up to a NUL.
-- (What follows the counter in memory is not modelled; it plays no part below 2 ^ 56.)
pub my_seq_show : Sequence → List ℕ
unfolding bytes_of
my_seq_show s =
    (115 ∷ 101 ∷ 113 ∷ 58 ∷ 32 ∷ []) ++ until_nul (bytes_of 8 s.counter ++ 0 ∷ []) ++ 10 ∷ []

-- What `seq_read` makes of them in one run over the file: a record, and the next start, which ends
-- it.
pub read_file : Sequence → List ℕ × Sequence
unfolding my_seq_start my_seq_next my_seq_show
read_file s =
    if (my_seq_start s).0
    then (my_seq_show s, (my_seq_start (my_seq_next s)).1)
    else ([], (my_seq_start s).1)

-- A run from the beginning prints the counter, adds one to it, and leaves the file at its
-- beginning.
pub read_file_counts :
    (s : Sequence)
    → s.position ≡ 0
    → read_file s
      ≡ (my_seq_show s, record { counter = (s.counter + 1) % 18446744073709551616; position = 0 })
unfolding read_file my_seq_start my_seq_next
read_file_counts s e = ground arith

-- A file that is opened begins at 0; the counter is the one of all files. `opened` is whether
-- `seq_open` gets its memory.
pub my_open : Sequence → (opened : Bool) → ℤ × Sequence
my_open s opened = if opened then (pos 0, record s { position = 0 }) else (minus 12, s)

-- The texts of files that are opened and read to their end, one after the other.
pub read_files : Sequence → (opened : List Bool) → List (List ℕ)
unfolding my_open read_file
read_files s [] = []
read_files s (opened ∷ rest) =
    let file = my_open s opened in
    let later = read_files (if opened then (read_file file.1).1 else file.1) rest in
    if opened then (read_file file.1).0 ∷ later else later

-- the records of `n` counters in a row, from a first one
pub records_from : (n counter : ℕ) → List (List ℕ)
records_from zero counter = []
records_from (suc n) counter =
    my_seq_show (record { counter = counter; position = 0 })
    ∷ records_from n ((counter + 1) % 18446744073709551616)

-- the files that could be opened
pub number_opened : List Bool → ℕ
number_opened [] = 0
number_opened (true ∷ rest) = suc (number_opened rest)
number_opened (false ∷ rest) = number_opened rest

-- Every file that can be opened shows the next counter, whatever `*pos` was before; one that cannot
-- leaves the counter as it is.
pub read_files-records :
    (s : Sequence) (opened : List Bool)
    → read_files s opened ≡ records_from (number_opened opened) s.counter
unfolding read_files records_from number_opened my_open read_file my_seq_start my_seq_next
    my_seq_show
read_files-records s [] = refl
read_files-records s (true ∷ rest) =
    ap (λ shown. my_seq_show s ∷ shown) (read_files-records (read_file (my_open s true).1).1 rest)
read_files-records s (false ∷ rest) = read_files-records s rest

-- With 65 on the counter the record is `seq: A`.
prints_letter :
    my_seq_show (record { counter = 65; position = 0 }) ≡ 115 ∷ 101 ∷ 113 ∷ 58 ∷ 32 ∷ 65 ∷ 10 ∷ []
unfolding my_seq_show bytes_of
prints_letter = refl

-- ===== src/Pagemap/Maps.antt =====
-- `parse_maps` and `pagemap_info` of os_02/lab_04/src/part_01/pagemap.c: the lines in the buffer.
pub mod Lines
use operating_sys.Base.{
  ℕ, zero, suc, ◌+◌, ◌-◌, ◌*◌, ◌/◌, ◌%◌, ◌^◌, ◌≤◌, ◌<◌, ◌≡◌, refl, sym, ap, ◌∙◌, subst, ◌≢◌, ◌↔◌,
  ◌⊎◌, inl, inr, Bool, true, false, not, ◌&&◌, ◌||◌, Option, none, some, List, [], ◌∷◌, ◌++◌, map,
  append_assoc, append-nil, arith, dec_lt, ℕ_discrete, ltb, leb, ◌==◌, if◌then◌else◌, ltb→lt,
  lt→ltb, leb→le, ==_iff, tests, Bool-cases, Option-cases, update, length, get_elem?, get_or, set,
  take, drop, replicate, All, length-append, length-take, take-append, length-set, length-replicate,
  get_elem?-set_self, get_elem?-set_ne, take-of_le,
}
use operating_sys.Base.Outcome.{
  Outcome, done, exited, aborted, fault, out_of_fuel, ◌>>=◌, ◌>>◌, char_at, ℤ, pos, negsuc, minus,
  nonzero, negative, within,
}
use operating_sys.Base.Memory.{overwrite}
use operating_sys.Base.Texts.{codes}
use operating_sys.Pagemap.{
  name_of, parse_line, Range, Page, handle_virtual_range, skip_to, before_newline,
}

-- A line of the output: the entry of a page and the name of its range.
pub record Shown : Type 0 where
  pub page : Page
  pub lib_name : List ℕ

-- `while(x && buffer[x] != '\n') x --;`
unfoldable pub back : (buffer : List ℕ) (x : ℕ) → ℕ
back buffer zero = 0
back buffer (suc x) = if get_or buffer (suc x) 0 == 10 then suc x else back buffer x

-- where the line starts that the newline at `i` ends
abbrev pub beginning : (buffer : List ℕ) (i : ℕ) → ℕ
beginning buffer i = let x = back buffer (i - 1) in if get_or buffer x 0 == 10 then x + 1 else x

-- The body of the loop at a newline: what is printed, and the buffer behind it, where the byte that
-- was NUL for a while is a newline. A line that ends before its fields do leads out of the buffer.
unfoldable pub handle_line :
    (pread : ℕ → Option ℕ) (fuel : ℕ) (buffer : List ℕ) (i : ℕ) → Outcome (List Shown × List ℕ)
unfolding back
handle_line pread fuel buffer i =
    let line = drop (beginning buffer i) buffer in
    let range = parse_line line in
    let name = name_of line in
    let y = length buffer - length name + length (before_newline name) in
    if length name == 0 then fault else (do
      pages ← handle_virtual_range pread fuel range.low range.high
      done (map (λ p. record { page = p; lib_name = range.lib_name }) pages, set buffer y 10))

abbrev pub at_newline : (buffer : List ℕ) (i : ℕ) → Bool
at_newline buffer i = (get_or buffer i 0 == 10) && ltb 0 i

-- The loop over the `n` bytes from `i` on.
unfoldable pub scan_buffer :
    (pread : ℕ → Option ℕ) (fuel n i : ℕ) (buffer : List ℕ) → Outcome (List Shown × List ℕ)
unfolding handle_line
scan_buffer pread fuel zero i buffer = done ([], buffer)
scan_buffer pread fuel (suc n) i buffer =
    let here = if at_newline buffer i then handle_line pread fuel buffer i else done ([], buffer) in
    do
      shown ← here
      later ← scan_buffer pread fuel n (i + 1) shown.1
      done (shown.0 ++ later.0, later.1)

-- The loop over the results of `read`, each of which goes to the start of the buffer, since
-- `offset` stays 0; an empty one ends it.
unfoldable pub parse_reads :
    (pread : ℕ → Option ℕ) (fuel : ℕ) (reads : List (List ℕ)) (buffer : List ℕ)
    → Outcome (List Shown)
unfolding scan_buffer
parse_reads pread fuel [] buffer = done []
parse_reads pread fuel (bytes ∷ reads) buffer = if length bytes == 0 then done [] else (do
  shown ← scan_buffer pread fuel (length bytes) 0 (overwrite buffer bytes)
  later ← parse_reads pread fuel reads shown.1
  done (shown.0 ++ later))

-- What the system answers: the results of `read` on the file of a path, and `pread` on one; `none`
-- where it cannot be opened. `garbage` is what the array `buffer` holds at the start.
pub record PageFiles : Type 0 where
  pub maps : List ℕ → Option (List (List ℕ))
  pub pagemap : List ℕ → Option (ℕ → Option ℕ)
  pub garbage : List ℕ

unfoldable pub parse_maps :
    (fuel : ℕ) → PageFiles → (maps_file pagemap_file : List ℕ) → Outcome (List Shown)
unfolding parse_reads
parse_maps fuel sys maps_file pagemap_file = elim (sys.maps maps_file) [
  | none ↦ done []
  | some reads ↦ elim (sys.pagemap pagemap_file) [
    | none ↦ done []
    | some pread ↦ parse_reads pread fuel reads sys.garbage
  ]
]

unfoldable pub pagemap_info :
    (bufsiz fuel : ℕ) → PageFiles → (proc_path : List ℕ) → Outcome (List Shown)
unfolding parse_maps
pagemap_info bufsiz fuel sys proc_path =
    parse_maps fuel sys (take (bufsiz - 1) (proc_path ++ codes "/maps"))
      (take (bufsiz - 1) (proc_path ++ codes "/pagemap"))

-- ===== src/ProcInfo.antt =====
-- os_02/lab_04/src/part_01/main.c: a report on a process, made from its directory under /proc. Each
-- function gives the bytes that it adds to the report.
pub mod Patterns
pub mod Buffers
pub mod Arguments
pub mod Fields
pub mod Links
pub mod Report
pub mod Failures
mod Tests
use operating_sys.Base.{
  ℕ, zero, suc, ◌+◌, ◌-◌, ◌*◌, ◌/◌, ◌%◌, ◌^◌, ◌≤◌, ◌<◌, ◌≡◌, refl, sym, ap, ◌∙◌, subst, ◌≢◌, ◌↔◌,
  ◌⊎◌, inl, inr, Bool, true, false, not, ◌&&◌, ◌||◌, Option, none, some, List, [], ◌∷◌, ◌++◌, map,
  append_assoc, append-nil, arith, dec_lt, ℕ_discrete, ltb, leb, ◌==◌, if◌then◌else◌, ltb→lt,
  lt→ltb, leb→le, ==_iff, tests, Bool-cases, Option-cases, update, length, get_elem?, get_or, set,
  take, drop, replicate, All, length-append, length-take, take-append, length-set, length-replicate,
  get_elem?-set_self, get_elem?-set_ne, take-of_le,
}
use operating_sys.Base.Outcome.{
  Outcome, done, exited, aborted, fault, out_of_fuel, ◌>>=◌, ◌>>◌, char_at, ℤ, pos, negsuc, minus,
  nonzero, negative, within,
}
use operating_sys.Base.Memory.{overwrite, store_bytes, string_of}
use operating_sys.Base.Texts.{codes}

-- What the system answers: a file's contents, as one `fopen` and the `fread`s after it see them,
-- the target of a link and the names in a directory; `none` where it answers with an error.
pub record Proc : Type 0 where
  pub file : List ℕ → Option (List ℕ)
  pub link : List ℕ → Option (List ℕ)
  pub names : List ℕ → Option (List (List ℕ))

-- The text of `argv[1]` behind the call: one slash at its end is taken off.
unfoldable pub check_path : List ℕ → List ℕ
check_path [] = []
check_path (c ∷ []) = if c == 47 then [] else c ∷ []
check_path (c ∷ d ∷ cs) = c ∷ check_path (d ∷ cs)

-- `snprintf(file_path, limit, ...)`, where `file_path` is an array of `size` bytes
abbrev pub print_path : (limit size : ℕ) (text : List ℕ) → Outcome (List ℕ)
print_path limit size text = do
  within (length (take (limit - 1) text) + 1) size
  done (take (limit - 1) text)

-- the line with the path of a section; `gap` is what stands before it
abbrev pub heading : (gap path : List ℕ) → List ℕ
heading gap path = gap ++ (9 ∷ 9 ∷ 42 ∷ 42 ∷ 42 ∷ path ++ 42 ∷ 42 ∷ 42 ∷ 10 ∷ 10 ∷ [])

abbrev pub two_lines : List ℕ
two_lines = 10 ∷ 10 ∷ []

-- `fopen`; the first use of a null stream is a fault
abbrev pub open_file : Proc → List ℕ → Outcome (List ℕ)
open_file sys path = elim (sys.file path) [ none ↦ fault | some bytes ↦ done bytes ]

abbrev pub newline_for : ℕ → ℕ
newline_for c = if c == 0 then 10 else c

-- `buf[i]` becomes a newline where it is NUL, for the first `len` bytes
abbrev pub replace_nuls : (len : ℕ) → List ℕ → List ℕ
replace_nuls zero buf = buf
replace_nuls (suc len) [] = []
replace_nuls (suc len) (c ∷ buf) = newline_for c ∷ replace_nuls len buf

-- The loop of `cmdline_info` and `environ_info` with `fuel` rounds: `buf` is the buffer of `bufsiz`
-- bytes, `rest` what the file still gives.
unfoldable pub print_args : (bufsiz fuel : ℕ) (buf rest : List ℕ) → Outcome (List ℕ)
print_args bufsiz zero buf rest = out_of_fuel
print_args bufsiz (suc fuel) buf rest =
    let chunk = take bufsiz rest in
    let len = length chunk in
    let text = set (replace_nuls len (overwrite buf chunk)) (len - 1) 0 in
    let later = print_args bufsiz fuel text (drop bufsiz rest) in
    if len == 0 then done [] else (do out ← string_of text; more ← later; done (out ++ more))

unfoldable pub cmdline_info : (bufsiz fuel : ℕ) → Proc → (proc_path : List ℕ) → Outcome (List ℕ)
unfolding print_args
cmdline_info bufsiz fuel sys proc_path = do
  path ← print_path bufsiz 256 (proc_path ++ codes "/cmdline")
  bytes ← open_file sys path
  out ← print_args bufsiz fuel (replicate bufsiz 0) bytes
  done (heading [] path ++ out)

unfoldable pub environ_info : (bufsiz fuel : ℕ) → Proc → (proc_path : List ℕ) → Outcome (List ℕ)
unfolding print_args
environ_info bufsiz fuel sys proc_path = do
  path ← print_path bufsiz 256 (proc_path ++ codes "/environ")
  bytes ← open_file sys path
  out ← print_args bufsiz fuel (replicate bufsiz 0) bytes
  done (heading two_lines path ++ out)

-- `readlink` into `buf`, and the NUL behind what it wrote
abbrev pub link_text : (bufsiz : ℕ) → Option (List ℕ) → (buf : List ℕ) → Outcome (List ℕ)
link_text bufsiz none buf = done buf
link_text bufsiz (some target) buf =
    let written = take bufsiz target in
    store_bytes (overwrite buf written) (length written) (0 ∷ [])

-- `cwd_info`, `exe_info` and `root_info` are this for three names.
unfoldable pub link_info : (bufsiz : ℕ) → Proc → (name proc_path : List ℕ) → Outcome (List ℕ)
unfolding store_bytes
link_info bufsiz sys name proc_path = do
  path ← print_path 256 256 (proc_path ++ name)
  buf ← link_text bufsiz (sys.link path) (replicate bufsiz 0)
  text ← string_of buf
  done (heading two_lines path ++ (10 ∷ text ++ 10 ∷ []))

abbrev pub cwd_info : (bufsiz : ℕ) → Proc → (proc_path : List ℕ) → Outcome (List ℕ)
cwd_info bufsiz sys proc_path = link_info bufsiz sys (codes "/cwd") proc_path

abbrev pub exe_info : (bufsiz : ℕ) → Proc → (proc_path : List ℕ) → Outcome (List ℕ)
exe_info bufsiz sys proc_path = link_info bufsiz sys (codes "/exe") proc_path

abbrev pub root_info : (bufsiz : ℕ) → Proc → (proc_path : List ℕ) → Outcome (List ℕ)
root_info bufsiz sys proc_path = link_info bufsiz sys (codes "/root") proc_path

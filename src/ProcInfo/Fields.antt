-- ===== src/ProcInfo/Fields.antt =====
-- `stat_info` and `statm_info` of os_02/lab_04/src/part_01/main.c: a line of fields, cut at its
-- spaces.
pub mod Tokens
use operating_sys.Base.{
  ℕ, zero, suc, ◌+◌, ◌-◌, ◌*◌, ◌/◌, ◌%◌, ◌^◌, ◌≤◌, ◌<◌, ◌≡◌, refl, sym, ap, ◌∙◌, subst, ◌≢◌, ◌↔◌,
  ◌⊎◌, inl, inr, Bool, true, false, not, ◌&&◌, ◌||◌, Option, none, some, List, [], ◌∷◌, ◌++◌, map,
  append_assoc, append-nil, arith, dec_lt, ℕ_discrete, ltb, leb, ◌==◌, if◌then◌else◌, ltb→lt,
  lt→ltb, leb→le, ==_iff, tests, Bool-cases, Option-cases, update, length, get_elem?, get_or, set,
  take, drop, replicate, All, length-append, length-take, take-append, length-set, length-replicate,
  get_elem?-set_self, get_elem?-set_ne, take-of_le,
}
use operating_sys.Base.Outcome.{
  Outcome, done, exited, aborted, fault, out_of_fuel, ◌>>=◌, ◌>>◌, char_at, ℤ, pos, negsuc, minus,
  nonzero, negative, within,
}
use Prim.Native.String.{String}
use operating_sys.Base.Memory.{overwrite, string_of}
use operating_sys.Base.Texts.{codes}
use operating_sys.ProcInfo.{Proc, print_path, heading, two_lines, open_file}
use operating_sys.ProcInfo.Patterns.{with_descr, statm_patterns}

abbrev pub keep_token : List ℕ → List (List ℕ) → List (List ℕ)
keep_token [] later = later
keep_token (c ∷ cs) later = (c ∷ cs) ∷ later

-- the bytes up to the next space, and the tokens behind it
unfoldable pub cut_token : List ℕ → List ℕ × List (List ℕ)
cut_token [] = ([], [])
cut_token (c ∷ cs) =
    let rest = cut_token cs in
    if c == 32 then ([], keep_token rest.0 rest.1) else (c ∷ rest.0, rest.1)

-- all that `strtok` gives of a text, with the space as the only delimiter
unfoldable pub tokens : List ℕ → List (List ℕ)
unfolding cut_token
tokens text = keep_token (cut_token text).0 (cut_token text).1

-- what the calls of `strtok` leave in the buffer: a NUL behind every token that a space ends
unfoldable pub strtok_marks : (inside : Bool) → List ℕ → List ℕ
strtok_marks inside [] = []
strtok_marks inside (c ∷ buf) =
    let behind = strtok_marks false buf in
    let further = strtok_marks true buf in
    if c == 0 then c ∷ buf else if c == 32 then (if inside then 0 else 32) ∷ behind else c ∷ further

-- one `fprintf` with a pattern that makes the token `width` characters wide
abbrev pub row : (width : ℕ) → String × String → List ℕ → List ℕ
row width (before, after) token =
    codes before ++ (replicate (width - length token) 32 ++ (token ++ (codes after ++ 10 ∷ [])))

-- The loop over the tokens; a token without a pattern reads behind the end of the table.
unfoldable pub print_tokens :
    (width : ℕ) (patterns : List (String × String)) → List (List ℕ) → Outcome (List ℕ)
print_tokens width patterns [] = done []
print_tokens width [] (t ∷ ts) = fault
print_tokens width (p ∷ patterns) (t ∷ ts) = do
  more ← print_tokens width patterns ts
  done (row width p t ++ more)

-- The loop that reads the file, with `fuel` rounds.
unfoldable pub print_fields :
    (bufsiz width : ℕ) (patterns : List (String × String)) (fuel : ℕ) (buf rest : List ℕ)
    → Outcome (List ℕ)
unfolding tokens strtok_marks print_tokens
print_fields bufsiz width patterns zero buf rest = out_of_fuel
print_fields bufsiz width patterns (suc fuel) buf rest =
    let chunk = take bufsiz rest in
    let text = overwrite buf chunk in
    let later =
      print_fields bufsiz width patterns fuel (strtok_marks false text) (drop bufsiz rest) in
    if length chunk == 0 then done [] else (do
      line ← string_of text
      out ← print_tokens width patterns (tokens line)
      more ← later
      done (out ++ more))

unfoldable pub stat_info : (bufsiz fuel : ℕ) → Proc → (proc_path : List ℕ) → Outcome (List ℕ)
unfolding print_fields
stat_info bufsiz fuel sys proc_path = do
  path ← print_path bufsiz 256 (proc_path ++ codes "/stat")
  bytes ← open_file sys path
  out ← print_fields bufsiz 20 with_descr fuel (replicate bufsiz 0) bytes
  done (heading two_lines path ++ out)

unfoldable pub statm_info : (bufsiz fuel : ℕ) → Proc → (proc_path : List ℕ) → Outcome (List ℕ)
unfolding print_fields
statm_info bufsiz fuel sys proc_path = do
  path ← print_path bufsiz 256 (proc_path ++ codes "/statm")
  bytes ← open_file sys path
  out ← print_fields bufsiz 8 statm_patterns fuel (replicate bufsiz 0) bytes
  done (heading two_lines path ++ out)

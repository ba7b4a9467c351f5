-- ===== src/ProcInfo/Fields/Tokens.antt =====
-- What `stat_info` and `statm_info` of os_02/lab_04/src/part_01/main.c print of a line of fields.
use operating_sys.Base.{
  ℕ, zero, suc, ◌<◌, ◌≡◌, refl, ◌≢◌, Bool, true, false, some, List, [], ◌∷◌, ◌++◌, append-nil,
  arith, leb, ◌==◌, if◌then◌else◌, length, replicate, All, length-append, take-of_le,
}
use operating_sys.Base.Outcome.{done, fault, ◌>>=◌}
use Prim.Native.String.{String}
use operating_sys.Base.Memory.{overwrite, IsText}
use operating_sys.Base.Texts.{codes}
use operating_sys.ProcInfo.{Proc, heading, two_lines}
use operating_sys.ProcInfo.Patterns.{with_descr, statm_patterns}
use operating_sys.ProcInfo.Buffers.{IsText-append, zeros, drop-all, filled}
use operating_sys.ProcInfo.Arguments.{short_path, open_file-some}
use operating_sys.ProcInfo.Fields.{
  keep_token, cut_token, tokens, strtok_marks, row, print_tokens, print_fields, stat_info,
  statm_info,
}

-- A field: no byte of it is a space or NUL, and it has one.
abbrev pub IsField : List ℕ → Type 0
IsField f = (0 < length f) × All (λ b. (b ≢ 32) × (b ≢ 0)) f

abbrev pub spaced : List (List ℕ) → List ℕ
spaced [] = []
spaced (f ∷ []) = f
spaced (f ∷ f' ∷ fs) = f ++ 32 ∷ spaced (f' ∷ fs)

cut_token-word :
    (f rest : List ℕ)
    → All (λ b. (b ≢ 32) × (b ≢ 0)) f
    → cut_token (f ++ rest) ≡ (f ++ (cut_token rest).0, (cut_token rest).1)
unfolding cut_token
cut_token-word [] rest a = refl
cut_token-word (b ∷ f) rest a = ground (arith, a.0.0, cut_token-word f rest a.1)

keep_token-long :
    (f : List ℕ) (later : List (List ℕ)) → 0 < length f → keep_token f later ≡ f ∷ later
keep_token-long [] later h = absurd (omega arith)
keep_token-long (b ∷ f) later h = refl

-- Cutting the fields that spaces separate gives these fields.
pub tokens-spaced : (fs : List (List ℕ)) → All IsField fs → tokens (spaced fs) ≡ fs
unfolding tokens cut_token
tokens-spaced [] a = refl
tokens-spaced (f ∷ []) a =
    rw (← append-nil f, cut_token-word f [] a.0.1, append-nil f) (keep_token-long f [] a.0.0)
tokens-spaced (f ∷ f' ∷ fs) a =
    rw (cut_token-word f (32 ∷ spaced (f' ∷ fs)) a.0.1, append-nil f, tokens-spaced (f' ∷ fs) a.1)
      (keep_token-long f (f' ∷ fs) a.0.0)

field-IsText : (f : List ℕ) → All (λ b. (b ≢ 32) × (b ≢ 0)) f → IsText f
field-IsText [] a = tt
field-IsText (b ∷ f) a = (a.0.1, field-IsText f a.1)

spaced-IsText : (fs : List (List ℕ)) → All IsField fs → IsText (spaced fs)
spaced-IsText [] a = tt
spaced-IsText (f ∷ []) a = field-IsText f a.0.1
spaced-IsText (f ∷ f' ∷ fs) a =
    IsText-append f (32 ∷ spaced (f' ∷ fs)) (field-IsText f a.0.1)
      ((λ e. absurd (omega (arith, e))), spaced-IsText (f' ∷ fs) a.1)

-- each field in the row of its number
abbrev pub rows : (width : ℕ) → List (String × String) → List (List ℕ) → List ℕ
rows width patterns [] = []
rows width [] (f ∷ fs) = []
rows width (p ∷ patterns) (f ∷ fs) = row width p f ++ rows width patterns fs

print_tokens-rows :
    (width : ℕ) (patterns : List (String × String)) (fs : List (List ℕ))
    → print_tokens width patterns fs
      ≡ (if leb (length fs) (length patterns) then done (rows width patterns fs) else fault)
unfolding print_tokens
print_tokens-rows width patterns [] = ground arith
print_tokens-rows width [] (f ∷ fs) = ground arith
print_tokens-rows width (p ∷ patterns) (f ∷ fs) =
    ground (arith, print_tokens-rows width patterns fs)

print_fields-end :
    (n fuel width : ℕ) (patterns : List (String × String)) (buf : List ℕ)
    → 0 < fuel
    → print_fields n width patterns fuel buf [] ≡ done []
unfolding print_fields
print_fields-end n zero width patterns buf enough = absurd (omega arith)
print_fields-end zero (suc fuel) width patterns buf enough = refl
print_fields-end (suc n) (suc fuel) width patterns buf enough = refl

length-spaced : (fs : List (List ℕ)) → All IsField fs → 0 < length fs → 0 < length (spaced fs)
length-spaced [] a h = absurd (omega arith)
length-spaced (f ∷ []) a h = a.0.0
length-spaced (f ∷ f' ∷ fs) a h = omega (arith, length-append f (32 ∷ spaced (f' ∷ fs)))

print_fields-rows :
    (n fuel width : ℕ) (patterns : List (String × String)) (fs : List (List ℕ))
    → All IsField fs
    → length (spaced fs) < n
    → length (spaced fs) < fuel
    → 0 < length fs
    → print_fields n width patterns fuel (replicate n 0) (spaced fs)
      ≡ (if leb (length fs) (length patterns) then done (rows width patterns fs) else fault)
unfolding print_fields
print_fields-rows n zero width patterns fs a fits enough some_field = absurd (omega arith)
print_fields-rows n (suc fuel) width patterns fs a fits enough some_field =
    let text = spaced fs in
    let some_byte = length-spaced fs a some_field in
    let whole = take-of_le n text (omega arith) in
    let line = filled n text (spaced-IsText fs a) fits in
    let later =
      print_fields-end n fuel width patterns (strtok_marks false (overwrite (zeros n) text))
        (omega arith) in
    rw
      (
        whole,
        line,
        tokens-spaced fs a,
        print_tokens-rows width patterns fs,
        drop-all n text (omega arith),
        later,
      )
      (ends (rows width patterns fs) (length (spaced fs)) some_byte
        (leb (length fs) (length patterns)))
  where
    ends :
        (out : List ℕ) (k : ℕ)
        → 0 < k
        → (b : Bool)
        → (if k == 0
            then done []
            else ((if b then done out else fault) >>= λ o. done [] >>= λ more. done (o ++ more)))
          ≡ (if b then done out else fault)
    ends out k h true = ground (arith, append-nil out)
    ends out k h false = ground arith

-- A file of fields with one space between any two of them, that is shorter than the buffer: where
-- there are at most 52 fields, `stat_info` prints each of them in the row of its number, and where
-- there are at most 7, so does `statm_info`; with more fields, they read a pattern behind the end
-- of the table. (A command name with spaces makes more fields of the same file.)
pub stat_info-rows :
    (n fuel : ℕ) (sys : Proc) (proc_path : List ℕ) (fs gs : List (List ℕ))
    → All IsField fs
    → All IsField gs
    → 0 < length fs
    → 0 < length gs
    → length (spaced fs) < n
    → length (spaced gs) < n
    → length (spaced fs) < fuel
    → length (spaced gs) < fuel
    → length (proc_path ++ codes "/statm") < 256
    → length (proc_path ++ codes "/statm") < n
    → sys.file (proc_path ++ codes "/stat") ≡ some (spaced fs)
    → sys.file (proc_path ++ codes "/statm") ≡ some (spaced gs)
    → (stat_info n fuel sys proc_path ≡ (
        if leb (length fs) 52
        then done (heading two_lines (proc_path ++ codes "/stat") ++ rows 20 with_descr fs)
        else fault))
      × (statm_info n fuel sys proc_path ≡ (
          if leb (length gs) 7
          then done (heading two_lines (proc_path ++ codes "/statm") ++ rows 8 statm_patterns gs)
          else fault))
unfolding stat_info statm_info
stat_info-rows n fuel sys proc_path fs gs af ag sf sg ff fg ef eg short fits of og =
    let shorter : length (proc_path ++ codes "/stat") < length (proc_path ++ codes "/statm") =
      omega (
        arith,
        length-append proc_path (codes "/stat"),
        length-append proc_path (codes "/statm"),
      ) in
    (
      rw
          (
            short_path n (proc_path ++ codes "/stat") (omega arith) (omega arith),
            open_file-some sys (proc_path ++ codes "/stat") (spaced fs) of,
            print_fields-rows n fuel 20 with_descr fs af ff ef sf,
          )
          (below (rows 20 with_descr fs) (heading two_lines (proc_path ++ codes "/stat"))
            (leb (length fs) 52)),
      rw
          (
            short_path n (proc_path ++ codes "/statm") short fits,
            open_file-some sys (proc_path ++ codes "/statm") (spaced gs) og,
            print_fields-rows n fuel 8 statm_patterns gs ag fg eg sg,
          )
          (below (rows 8 statm_patterns gs) (heading two_lines (proc_path ++ codes "/statm"))
            (leb (length gs) 7)),
    )
  where
    below :
        (out head : List ℕ) (b : Bool)
        → ((if b then done out else fault) >>= λ o. done (head ++ o))
          ≡ (if b then done (head ++ out) else fault)
    below out head true = refl
    below out head false = refl

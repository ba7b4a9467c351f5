-- ===== src/ProcInfo/Arguments.antt =====
-- What `cmdline_info` and `environ_info` of os_02/lab_04/src/part_01/main.c print.
use operating_sys.Base.{
  ℕ, zero, suc, ◌+◌, ◌-◌, ◌≤◌, ◌<◌, ◌≡◌, refl, sym, ap, ◌∙◌, some, List, [], ◌∷◌, ◌++◌, arith, ◌==◌,
  if◌then◌else◌, length, set, take, drop, replicate, All, length-append, length-take, length-set,
  length-replicate, take-of_le,
}
use operating_sys.Base.Outcome.{done}
use operating_sys.Base.Memory.{overwrite, string_of, IsText, length-overwrite}
use operating_sys.Base.Texts.{codes}
use operating_sys.ProcInfo.{
  Proc, print_path, heading, two_lines, open_file, newline_for, replace_nuls, print_args,
  cmdline_info, environ_info,
}

-- A file byte by byte: `at` is the place of the next byte in its block of `size` bytes. The last
-- byte of each block and of the file is lost, and each NUL becomes a newline.
unfoldable pub without_ends : (size at : ℕ) → List ℕ → List ℕ
without_ends size at [] = []
without_ends size at (b ∷ []) = []
without_ends size at (b ∷ c ∷ bs) =
    let next_block = without_ends size 0 (c ∷ bs) in
    let same_block = without_ends size (at + 1) (c ∷ bs) in
    if at + 1 == size then next_block else newline_for b ∷ same_block

abbrev lines_of : List ℕ → List ℕ
lines_of [] = []
lines_of (b ∷ []) = []
lines_of (b ∷ c ∷ bs) = newline_for b ∷ lines_of (c ∷ bs)

without_ends-block :
    (size r at : ℕ) (xs : List ℕ)
    → suc r + at ≡ size
    → without_ends size at xs ≡ lines_of (take (suc r) xs) ++ without_ends size 0 (drop (suc r) xs)
unfolding without_ends
without_ends-block size r at [] e = refl
without_ends-block size zero at (b ∷ []) e = refl
without_ends-block size (suc r) at (b ∷ []) e = refl
without_ends-block size zero at (b ∷ c ∷ bs) e = ground arith
without_ends-block size (suc r) at (b ∷ c ∷ bs) e =
    ground (arith, without_ends-block size r (at + 1) (c ∷ bs) (omega arith))

string_of-lines_of :
    (buf : List ℕ) (b : ℕ) (chunk : List ℕ)
    → length (b ∷ chunk) ≤ length buf
    → string_of
        (set (replace_nuls (suc (length chunk)) (overwrite buf (b ∷ chunk))) (length chunk) 0)
      ≡ done (lines_of (b ∷ chunk))
string_of-lines_of [] b chunk fits = absurd (omega arith)
string_of-lines_of (x ∷ buf) b [] fits = refl
string_of-lines_of (x ∷ buf) b (c ∷ chunk) fits =
    ground (arith, string_of-lines_of buf c chunk (omega arith))

length-replace_nuls : (len : ℕ) (buf : List ℕ) → length (replace_nuls len buf) ≡ length buf
length-replace_nuls zero buf = refl
length-replace_nuls (suc len) [] = refl
length-replace_nuls (suc len) (c ∷ buf) = ap suc (length-replace_nuls len buf)

length-drop-suc : (n : ℕ) (b : ℕ) (bs : List ℕ) → length (drop (suc n) (b ∷ bs)) ≤ length bs
length-drop-suc zero b bs = omega arith
length-drop-suc (suc n) b [] = omega arith
length-drop-suc (suc n) b (c ∷ bs) = omega (arith, length-drop-suc n c bs)

-- The loop reads the file in blocks of the size of the buffer: every NUL becomes a newline, and the
-- last byte of each block, and of the file, is lost, whatever it is. The loop ends; it gets a round
-- for every byte and one more.
pub print_args-without_ends :
    (n fuel : ℕ) (buf rest : List ℕ)
    → length buf ≡ suc n
    → length rest < fuel
    → print_args (suc n) fuel buf rest ≡ done (without_ends (suc n) 0 rest)
unfolding print_args
print_args-without_ends n zero buf rest size enough = absurd (omega arith)
print_args-without_ends n (suc fuel) buf [] size enough = unfold without_ends in refl
print_args-without_ends n (suc fuel) buf (b ∷ rest) size enough =
    let chunk = take n rest in
    let text =
      set (replace_nuls (suc (length chunk)) (overwrite buf (b ∷ chunk))) (length chunk) 0 in
    let later =
      print_args-without_ends n fuel text (drop (suc n) (b ∷ rest))
        (length-set (replace_nuls (suc (length chunk)) (overwrite buf (b ∷ chunk))) (length chunk) 0
          ∙ length-replace_nuls (suc (length chunk)) (overwrite buf (b ∷ chunk))
          ∙ length-overwrite buf (b ∷ chunk)
          ∙ size)
        (omega (arith, length-drop-suc n b rest)) in
    let whole = string_of-lines_of buf b chunk (omega (arith, size, length-take n rest)) in
    let pred : suc (length chunk) - 1 ≡ length chunk = omega arith in
    rw (pred, whole, later, without_ends-block (suc n) n 0 (b ∷ rest) (omega arith)) (ground arith)

-- the arguments as the kernel lists them: each with a NUL behind it
abbrev pub terminated : List (List ℕ) → List ℕ
terminated [] = []
terminated (arg ∷ args) = arg ++ 0 ∷ terminated args

abbrev pub joined : List (List ℕ) → List ℕ
joined [] = []
joined (arg ∷ []) = arg
joined (arg ∷ arg' ∷ args) = arg ++ 10 ∷ joined (arg' ∷ args)

one_block :
    (size at : ℕ) (xs : List ℕ) → at + length xs ≤ size → without_ends size at xs ≡ lines_of xs
unfolding without_ends
one_block size at [] fits = refl
one_block size at (b ∷ []) fits = refl
one_block size at (b ∷ c ∷ bs) fits = ground (arith, one_block size (at + 1) (c ∷ bs) (omega arith))

lines_of-text :
    (arg rest : List ℕ) (d : ℕ)
    → IsText arg
    → lines_of (arg ++ 0 ∷ d ∷ rest) ≡ arg ++ 10 ∷ lines_of (d ∷ rest)
lines_of-text [] rest d t = refl
lines_of-text (b ∷ []) rest d t = ground (arith, t.0)
lines_of-text (b ∷ c ∷ arg) rest d t = ground (arith, t.0, lines_of-text (c ∷ arg) rest d t.1)

lines_of-last : (arg : List ℕ) → IsText arg → lines_of (arg ++ 0 ∷ []) ≡ arg
lines_of-last [] t = refl
lines_of-last (b ∷ []) t = ground (arith, t.0)
lines_of-last (b ∷ c ∷ arg) t = ground (arith, t.0, lines_of-last (c ∷ arg) t.1)

lines_of-terminated :
    (args : List (List ℕ)) → All IsText args → lines_of (terminated args) ≡ joined args
lines_of-terminated [] t = refl
lines_of-terminated (arg ∷ []) t = lines_of-last arg t.0
lines_of-terminated (arg ∷ [] ∷ args) t =
    lines_of-text arg (terminated args) 0 t.0
    ∙ ap (λ l. arg ++ 10 ∷ l) (lines_of-terminated ([] ∷ args) t.1)
lines_of-terminated (arg ∷ (b ∷ bs) ∷ args) t =
    lines_of-text arg (bs ++ 0 ∷ terminated args) b t.0
    ∙ ap (λ l. arg ++ 10 ∷ l) (lines_of-terminated ((b ∷ bs) ∷ args) t.1)

pub short_path :
    (bufsiz : ℕ) (text : List ℕ)
    → length text < 256
    → length text < bufsiz
    → print_path bufsiz 256 text ≡ done text
short_path bufsiz text short fits = rw (take-of_le (bufsiz - 1) text (omega arith)) (ground arith)

pub open_file-some :
    (sys : Proc) (path bytes : List ℕ)
    → sys.file path ≡ some bytes
    → open_file sys path ≡ done bytes
open_file-some sys path bytes e = rw (open_file, e) refl

-- Arguments without NULs, each followed by a NUL as the kernel gives them, that fit into the buffer
-- together, are printed with newlines between them, below the heading, if the path of the file is
-- shorter than its array and than the buffer; the same holds for the variables of the environment.
pub cmdline_info-joined :
    (n fuel : ℕ) (sys : Proc) (proc_path : List ℕ) (args vars : List (List ℕ))
    → All IsText args
    → All IsText vars
    → length (terminated args) ≤ suc n
    → length (terminated vars) ≤ suc n
    → length (terminated args) < fuel
    → length (terminated vars) < fuel
    → length (proc_path ++ codes "/environ") < 256
    → length (proc_path ++ codes "/environ") < suc n
    → sys.file (proc_path ++ codes "/cmdline") ≡ some (terminated args)
    → sys.file (proc_path ++ codes "/environ") ≡ some (terminated vars)
    → (cmdline_info (suc n) fuel sys proc_path
        ≡ done (heading [] (proc_path ++ codes "/cmdline") ++ joined args))
      × (environ_info (suc n) fuel sys proc_path
          ≡ done (heading two_lines (proc_path ++ codes "/environ") ++ joined vars))
unfolding cmdline_info environ_info
cmdline_info-joined n fuel sys proc_path args vars ta tv fa fv ea ev short fits oa ov =
    let printed =
      λ (texts : List (List ℕ)) (t : All IsText texts) (f : length (terminated texts) ≤ suc n)
          (e : length (terminated texts) < fuel).
        print_args-without_ends n fuel (replicate (suc n) 0) (terminated texts)
          (length-replicate (suc n) 0) e
        ∙ ap done
            (one_block (suc n) 0 (terminated texts) (omega arith) ∙ lines_of-terminated texts t) in
    let same : length (proc_path ++ codes "/cmdline") ≡ length (proc_path ++ codes "/environ") =
      length-append proc_path (codes "/cmdline")
      ∙ sym (length-append proc_path (codes "/environ")) in
    (
      rw
          (
            short_path (suc n) (proc_path ++ codes "/cmdline") (omega (arith, same))
                (omega (arith, same)),
            open_file-some sys (proc_path ++ codes "/cmdline") (terminated args) oa,
            printed args ta fa ea,
          )
          refl,
      rw
          (
            short_path (suc n) (proc_path ++ codes "/environ") short fits,
            open_file-some sys (proc_path ++ codes "/environ") (terminated vars) ov,
            printed vars tv fv ev,
          )
          refl,
    )

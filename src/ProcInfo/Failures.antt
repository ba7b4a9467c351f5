-- ===== src/ProcInfo/Failures.antt =====
-- What os_02/lab_04/src/part_01/main.c does where a file is missing or fills the buffer.
use operating_sys.Base.{
  ℕ, zero, suc, ◌-◌, ◌<◌, ◌≡◌, refl, ap, ◌∙◌, Bool, true, false, none, some, List, [], ◌∷◌, ◌++◌,
  append-nil, arith, dec_lt, ltb, ◌==◌, if◌then◌else◌, lt→ltb, length, take, length-take,
  length-replicate, take-of_le,
}
use operating_sys.Base.Outcome.{done, aborted, fault, ◌>>=◌, negsuc}
use operating_sys.Base.Memory.{
  overwrite, IsText, string_of-text, store_bytes-append, store_bytes_fault, length-overwrite,
}
use operating_sys.Base.Texts.{codes}
use operating_sys.ProcInfo.{Proc, check_path, heading, two_lines, open_file, cmdline_info}
use operating_sys.Pagemap.Maps.{PageFiles}
use operating_sys.ProcInfo.Buffers.{zeros, overwrite-zeros, drop-all}
use operating_sys.ProcInfo.Arguments.{short_path, open_file-some}
use operating_sys.ProcInfo.Report.{print_chunks, maps_info, link_ptr, usage, Ended, report, main}

print_chunks-end : (n fuel : ℕ) (buf : List ℕ) → 0 < fuel → print_chunks n fuel buf [] ≡ done []
unfolding print_chunks
print_chunks-end n zero buf enough = absurd (omega arith)
print_chunks-end zero (suc fuel) buf enough = refl
print_chunks-end (suc n) (suc fuel) buf enough = refl

print_chunks-text :
    (n fuel : ℕ) (text : List ℕ)
    → IsText text
    → 0 < n
    → 0 < length text
    → length text < fuel
    → print_chunks n fuel (zeros n) text ≡ (if ltb (length text) n then done text else fault)
unfolding print_chunks
print_chunks-text n zero text t some_room some_byte enough = absurd (omega arith)
print_chunks-text n (suc fuel) text t some_room some_byte enough = elim (dec_lt (length text) n) [
  | yes fits ↦
      let k = n - length text - 1 in
      let some_chunk : (length text == 0) ≡ false = ground arith in
      rw
        (
          take-of_le n text (omega arith),
          overwrite-zeros text k n (omega arith),
          some_chunk,
          store_bytes-append text (zeros (suc k)) (0 ∷ []) (omega arith),
          string_of-text text (zeros k) t,
          lt→ltb (length text) n fits,
          drop-all n text (omega arith),
          print_chunks-end n fuel (text ++ (0 ∷ zeros k)) (omega arith),
        )
        (ap done (append-nil text))
  | no long ↦
      let written = take n text in
      let all_of = length-take n text in
      let size = length-overwrite (zeros n) written ∙ length-replicate {A = ℕ} n 0 in
      let some_chunk : (length (take n text) == 0) ≡ false = ground (arith, all_of) in
      let outside =
        store_bytes_fault (overwrite (zeros n) written) (length written) (0 ∷ []) (omega arith)
          (omega (arith, size, all_of)) in
      rw (some_chunk, outside) (ground arith)
]

-- The memory map of a process, on a path that fits: a map without NULs, of one byte at least, is
-- printed as it is where it is shorter than the buffer; a longer one makes `maps_info` write behind
-- the buffer. The loop ends; it gets a round for every byte and one more.
pub maps_info-text :
    (n fuel : ℕ) (sys : Proc) (proc_path text : List ℕ)
    → IsText text
    → 0 < length text
    → length text < fuel
    → length (proc_path ++ codes "/maps") < 256
    → length (proc_path ++ codes "/maps") < n
    → sys.file (proc_path ++ codes "/maps") ≡ some text
    → maps_info n fuel sys proc_path ≡ (
        if ltb (length text) n
        then done (heading two_lines (proc_path ++ codes "/maps") ++ text)
        else fault)
unfolding maps_info
maps_info-text n fuel sys proc_path text t some_byte enough short fits opens =
    let path = proc_path ++ codes "/maps" in
    rw
      (
        short_path n path short fits,
        open_file-some sys path text opens,
        print_chunks-text n fuel text t (omega arith) some_byte enough,
      )
      (below (heading two_lines path) (ltb (length text) n))
  where
    below :
        (head : List ℕ) (b : Bool)
        → ((if b then done text else fault) >>= λ o. done (head ++ o))
          ≡ (if b then done (head ++ text) else fault)
    below head true = refl
    below head false = refl

abbrev pub usage_error : Ended
usage_error = record { status = negsuc 0; printed = usage ++ 10 ∷ []; text = []; pages = [] }

-- Where the process that the argument names has no files, `main` uses a null stream, whatever the
-- other answers are; with a wrong number of arguments it prints how it is called and returns -1;
-- and it ends by `abort` where result.txt cannot be opened.
pub main_failures :
    (n fuel : ℕ) (sys : Proc) (page_files : PageFiles) (opened : Bool) (program arg more : List ℕ)
    (args : List (List ℕ))
    → length (link_ptr (check_path arg) ++ codes "/cmdline") < 256
    → length (link_ptr (check_path arg) ++ codes "/cmdline") < n
    → sys.file (link_ptr (check_path arg) ++ codes "/cmdline") ≡ none
    → (main n fuel sys page_files opened (program ∷ arg ∷ []) ≡ (if opened then fault else aborted))
      × (main n fuel sys page_files opened (program ∷ []) ≡ done usage_error)
      × (main n fuel sys page_files opened (program ∷ arg ∷ more ∷ args) ≡ done usage_error)
unfolding main report cmdline_info
main_failures n fuel sys page_files opened program arg more args short fits missing =
    let path = link_ptr (check_path arg) ++ codes "/cmdline" in
    (rw (short_path n path short fits, open_file, missing) refl, refl, refl)

-- ===== src/Pagemap/Maps/Lines/Reads.antt =====
-- What `pagemap_info` of os_02/lab_04/src/part_01/pagemap.c prints of reads that give whole lines.
use operating_sys.Base.{
  ℕ, ◌-◌, ◌≤◌, ◌<◌, ◌≡◌, refl, sym, ap, ◌∙◌, subst, false, Option, some, List, [], ◌∷◌, ◌++◌, map,
  append_assoc, arith, ◌==◌, length, drop, All, length-append, take-of_le,
}
use operating_sys.Base.Outcome.{Outcome, done, exited, aborted, fault, out_of_fuel, ◌>>=◌}
use operating_sys.Base.Memory.{overwrite, overwrite_lem, length-overwrite}
use operating_sys.Base.Texts.{codes}
use operating_sys.Pagemap.Maps.{Shown, parse_reads, PageFiles, parse_maps, pagemap_info}
use operating_sys.Pagemap.Maps.Lines.{MapLine, IsMapLine, line_text}
use operating_sys.Pagemap.Maps.Lines.Shape.{range_of}
use operating_sys.Pagemap.Maps.Lines.Scan.{at_start, pages_of}
use operating_sys.Pagemap.Maps.Lines.Rounds.{
  lines_text, lines_text-append, shown_of, with_buffer, scan_lines,
}

abbrev pub all_lines : List (List MapLine) → List MapLine
all_lines [] = []
all_lines (ms ∷ mss) = ms ++ all_lines mss

shown_of-append :
    (pread : ℕ → Option ℕ) (fuel : ℕ) (ms ns : List MapLine)
    → shown_of pread fuel (ms ++ ns)
      ≡ (shown_of pread fuel ms >>= λ s. shown_of pread fuel ns >>= λ t. done (s ++ t))
unfolding shown_of
shown_of-append pread fuel [] ns = right_unit (shown_of pread fuel ns)
  where
    right_unit : (o : Outcome (List Shown)) → o ≡ (o >>= λ t. done t)
    right_unit (done a) = refl
    right_unit (exited n) = refl
    right_unit aborted = refl
    right_unit fault = refl
    right_unit out_of_fuel = refl
shown_of-append pread fuel (m ∷ ms) ns =
    rw (shown_of-append pread fuel ms ns)
      (assoc (pages_of pread fuel (range_of m)) (shown_of pread fuel ms) (shown_of pread fuel ns))
  where
    assoc :
        (a b c : Outcome (List Shown))
        → (a >>= λ x. (b >>= λ y. c >>= λ z. done (y ++ z)) >>= λ w. done (x ++ w))
          ≡ ((a >>= λ x. b >>= λ y. done (x ++ y)) >>= λ v. c >>= λ z. done (v ++ z))
    assoc (done x) (done y) (done z) = ap done (sym (append_assoc x y z))
    assoc (done x) (done y) (exited n) = refl
    assoc (done x) (done y) aborted = refl
    assoc (done x) (done y) fault = refl
    assoc (done x) (done y) out_of_fuel = refl
    assoc (done x) (exited n) c = refl
    assoc (done x) aborted c = refl
    assoc (done x) fault c = refl
    assoc (done x) out_of_fuel c = refl
    assoc (exited n) b c = refl
    assoc aborted b c = refl
    assoc fault b c = refl
    assoc out_of_fuel b c = refl

-- A result of `read` that is whole lines, at least one, and fits into the buffer.
abbrev pub IsRead : (size : ℕ) → List MapLine → Type 0
IsRead size ms = All IsMapLine ms × (0 < length ms) × (length (lines_text ms []) ≤ size)

abbrev pub text_of : List MapLine → List ℕ
text_of ms = lines_text ms []

parse_reads-shown_of :
    (pread : ℕ → Option ℕ) (fuel : ℕ) (mss : List (List MapLine)) (buffer : List ℕ)
    → All (IsRead (length buffer)) mss
    → parse_reads pread fuel (map text_of mss) buffer ≡ shown_of pread fuel (all_lines mss)
unfolding parse_reads
parse_reads-shown_of pread fuel [] buffer ok = unfold shown_of in refl
parse_reads-shown_of pread fuel (ms ∷ mss) buffer ok =
    let text = lines_text ms [] in
    let behind_it = drop (length text) buffer in
    let some_text : (length text == 0) ≡ false = ground (arith, some_line ms ok.0.1) in
    let filled : overwrite buffer text ≡ lines_text ms behind_it =
      overwrite_lem buffer text ok.0.2 ∙ lines_text-append ms behind_it in
    let size = sym (ap length filled) ∙ length-overwrite buffer text in
    let scanned = scan_lines pread fuel ms [] behind_it at_start ok.0.0 in
    let later =
      parse_reads-shown_of pread fuel mss (lines_text ms behind_it)
        (subst (λ n. All (IsRead n) mss) (sym size) ok.1) in
    rw (some_text, filled, scanned, shown_of-append pread fuel ms (all_lines mss))
      (join (shown_of pread fuel ms) (shown_of pread fuel (all_lines mss)) (lines_text ms behind_it)
        (parse_reads pread fuel (map text_of mss)) later)
  where
    some_line : (ms : List MapLine) → 0 < length ms → 0 < length (lines_text ms [])
    some_line [] h = absurd (omega arith)
    some_line (m ∷ ms) h = omega (arith, length-append (line_text m []) (10 ∷ lines_text ms []))

    join :
        (o q : Outcome (List Shown)) (b : List ℕ) (next : List ℕ → Outcome (List Shown))
        → next b ≡ q
        → (with_buffer o b >>= λ shown. next shown.1 >>= λ later. done (shown.0 ++ later))
          ≡ (o >>= λ s. q >>= λ t. done (s ++ t))
    join (done s) q b next e = rw e refl
    join (exited n) q b next e = refl
    join aborted q b next e = refl
    join fault q b next e = refl
    join out_of_fuel q b next e = refl

-- Where every `read` gives whole lines as the kernel prints them, at least one, and no more bytes
-- than the buffer has: `pagemap_info` prints the pages of all lines, in their order and each with
-- the name of its line. (A line that two reads cut is not covered: its first part is lost.)
pub pagemap_info-shown_of :
    (bufsiz fuel : ℕ) (sys : PageFiles) (proc_path : List ℕ) (mss : List (List MapLine))
    (pread : ℕ → Option ℕ)
    → length (proc_path ++ codes "/pagemap") < bufsiz
    → sys.maps (proc_path ++ codes "/maps") ≡ some (map text_of mss)
    → sys.pagemap (proc_path ++ codes "/pagemap") ≡ some pread
    → All (IsRead (length sys.garbage)) mss
    → pagemap_info bufsiz fuel sys proc_path ≡ shown_of pread fuel (all_lines mss)
unfolding pagemap_info
pagemap_info-shown_of bufsiz fuel sys proc_path mss pread short maps pages ok =
    let maps_file = proc_path ++ codes "/maps" in
    let pagemap_file = proc_path ++ codes "/pagemap" in
    rw
      (
        take-of_le (bufsiz - 1) maps_file (
            omega (
              arith,
              length-append proc_path (codes "/maps"),
              length-append proc_path (codes "/pagemap"),
            )),
        parse_maps,
        maps,
        take-of_le (bufsiz - 1) pagemap_file (omega arith),
        pages,
      )
      (parse_reads-shown_of pread fuel mss sys.garbage ok)

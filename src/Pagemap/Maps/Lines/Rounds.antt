-- ===== src/Pagemap/Maps/Lines/Rounds.antt =====
-- The rounds of the loop over the buffer in os_02/lab_04/src/part_01/pagemap.c, for whole lines.
use operating_sys.Base.{
  ℕ, zero, suc, ◌+◌, ◌<◌, ◌≡◌, refl, sym, ap, ◌∙◌, subst, ◌≢◌, true, false, Option, List, [], ◌∷◌,
  ◌++◌, append_assoc, arith, length, get_or, All, length-append,
}
use operating_sys.Base.Outcome.{Outcome, done, exited, aborted, fault, out_of_fuel, ◌>>=◌}
use operating_sys.Pagemap.{Range}
use operating_sys.Pagemap.Maps.{Shown, at_newline, scan_buffer}
use operating_sys.Pagemap.Maps.Lines.{MapLine, IsMapLine, line_text}
use operating_sys.Pagemap.Maps.Lines.Shape.{range_of, Whole, line-Whole}
use operating_sys.Pagemap.Maps.Lines.Scan.{
  LineStart, behind, pages_of, handle_line-pages_of, get_or-append, get_or-no_newline,
}

scan_pass :
    (pread : ℕ → Option ℕ) (fuel n i : ℕ) (buffer : List ℕ)
    → get_or buffer i 0 ≢ 10
    → scan_buffer pread fuel (suc n) i buffer ≡ scan_buffer pread fuel n (i + 1) buffer
unfolding scan_buffer
scan_pass pread fuel n i buffer ne =
    let no : at_newline buffer i ≡ false = ground arith in
    rw no (same (scan_buffer pread fuel n (i + 1) buffer))
  where
    same : (o : Outcome (List Shown × List ℕ)) → (o >>= λ later. done ([] ++ later.0, later.1)) ≡ o
    same (done a) = refl
    same (exited n) = refl
    same aborted = refl
    same fault = refl
    same out_of_fuel = refl

scan_skip :
    (pread : ℕ → Option ℕ) (fuel k n i m : ℕ) (buffer : List ℕ)
    → m ≡ k + n
    → ((j : ℕ) → j < k → get_or buffer (i + j) 0 ≢ 10)
    → scan_buffer pread fuel m i buffer ≡ scan_buffer pread fuel n (i + k) buffer
scan_skip pread fuel zero n i m buffer e ne =
    let count : m ≡ n = omega (arith, e) in
    let place : i ≡ i + 0 = omega arith in
    ap (λ k. scan_buffer pread fuel k i buffer) count
    ∙ ap (λ j. scan_buffer pread fuel n j buffer) place
scan_skip pread fuel (suc k) n i zero buffer e ne = absurd (omega (arith, e))
scan_skip pread fuel (suc k) n i (suc m) buffer e ne =
    scan_pass pread fuel m i buffer
      (λ at. ne 0 (omega arith) (ap (λ j. get_or buffer j 0) i_zero ∙ at))
    ∙ scan_skip pread fuel k n (i + 1) m buffer (omega (arith, e))
        (λ j b at. ne (suc j) (omega arith) (ap (λ l. get_or buffer l 0) (i_suc j) ∙ at))
    ∙ ap (λ l. scan_buffer pread fuel n l buffer) (sym (i_suc k))
  where
    i_zero : i + 0 ≡ i
    i_zero = omega arith

    i_suc : (j : ℕ) → i + suc j ≡ i + 1 + j
    i_suc j = omega arith

get_or_end : (line rest : List ℕ) → get_or (line ++ 10 ∷ rest) (length line) 0 ≡ 10
get_or_end [] rest = refl
get_or_end (b ∷ line) rest = get_or_end line rest

abbrev pub lines_text : List MapLine → (rest : List ℕ) → List ℕ
lines_text [] rest = rest
lines_text (m ∷ ms) rest = line_text m [] ++ 10 ∷ lines_text ms rest

-- The pages of all lines, in their order.
unfoldable pub shown_of : (pread : ℕ → Option ℕ) (fuel : ℕ) → List MapLine → Outcome (List Shown)
shown_of pread fuel [] = done []
shown_of pread fuel (m ∷ ms) = do
  shown ← pages_of pread fuel (range_of m)
  later ← shown_of pread fuel ms
  done (shown ++ later)

abbrev pub with_buffer : Outcome (List Shown) → List ℕ → Outcome (List Shown × List ℕ)
with_buffer o b = do s ← o; done (s, b)

-- Two results with the buffer that they leave as it was.
combine :
    (o q : Outcome (List Shown)) (b : List ℕ) (next : List ℕ → Outcome (List Shown × List ℕ))
    → next b ≡ with_buffer q b
    → (with_buffer o b >>= λ shown. next shown.1 >>= λ later. done (shown.0 ++ later.0, later.1))
      ≡ with_buffer (o >>= λ s. q >>= λ t. done (s ++ t)) b
combine (done s) (done t) b next e = rw e refl
combine (done s) (exited n) b next e = rw e refl
combine (done s) aborted b next e = rw e refl
combine (done s) fault b next e = rw e refl
combine (done s) out_of_fuel b next e = rw e refl
combine (exited n) q b next e = refl
combine aborted q b next e = refl
combine fault q b next e = refl
combine out_of_fuel q b next e = refl

scan_line :
    (pread : ℕ → Option ℕ) (fuel n k : ℕ) (front line rest : List ℕ) (range : Range)
    (q : Outcome (List Shown))
    → LineStart front
    → Whole line range
    → k ≡ length line + suc n
    → scan_buffer pread fuel n (length (front ++ (line ++ 10 ∷ []))) (front ++ (line ++ 10 ∷ rest))
      ≡ with_buffer q (front ++ (line ++ 10 ∷ rest))
    → scan_buffer pread fuel k (length front) (front ++ (line ++ 10 ∷ rest))
      ≡ with_buffer
          (pages_of pread fuel range >>= λ s. q >>= λ t. done (s ++ t))
          (front ++ (line ++ 10 ∷ rest))
unfolding scan_buffer
scan_line pread fuel n k front line rest range q start whole count later =
    let buffer = front ++ (line ++ 10 ∷ rest) in
    let i = length front + length line in
    let skipped =
      scan_skip pread fuel (length line) (suc n) (length front) k buffer count (λ j b at.
        get_or-no_newline line rest j whole.no_newline b
          (sym (get_or-append front (line ++ 10 ∷ rest) j) ∙ at)) in
    let here : at_newline buffer i ≡ true = ground (
      arith,
      get_or-append front (line ++ 10 ∷ rest) (length line),
      get_or_end line rest,
      whole.some_byte,
    ) in
    let next : length (front ++ (line ++ 10 ∷ [])) ≡ i + 1 =
      omega (arith, length-append front (line ++ 10 ∷ []), length-append line (10 ∷ [])) in
    skipped
    ∙ (rw (here, handle_line-pages_of pread fuel front line rest range start whole)
        (combine (pages_of pread fuel range) q buffer (λ b. scan_buffer pread fuel n (i + 1) b)
          (subst (λ l. scan_buffer pread fuel n l buffer ≡ with_buffer q buffer) next later)))

pub lines_text-append :
    (ms : List MapLine) (rest : List ℕ) → lines_text ms [] ++ rest ≡ lines_text ms rest
lines_text-append [] rest = refl
lines_text-append (m ∷ ms) rest =
    append_assoc (line_text m []) (10 ∷ lines_text ms []) rest
    ∙ ap (λ l. line_text m [] ++ 10 ∷ l) (lines_text-append ms rest)

pub scan_lines :
    (pread : ℕ → Option ℕ) (fuel : ℕ) (ms : List MapLine) (front rest : List ℕ)
    → LineStart front
    → All IsMapLine ms
    → scan_buffer pread fuel
        (length (lines_text ms []))
        (length front)
        (front ++ lines_text ms rest)
      ≡ with_buffer (shown_of pread fuel ms) (front ++ lines_text ms rest)
unfolding shown_of
scan_lines pread fuel [] front rest start ok = unfold scan_buffer in refl
scan_lines pread fuel (m ∷ ms) front rest start ok =
    let line = line_text m [] in
    let lines = lines_text ms rest in
    let next = front ++ (line ++ 10 ∷ []) in
    let whole_line : front ++ line ++ 10 ∷ [] ≡ next = append_assoc front line (10 ∷ []) in
    let same : next ++ lines ≡ front ++ (line ++ 10 ∷ lines) =
      append_assoc front (line ++ 10 ∷ []) lines
      ∙ ap (◌++◌ front) (append_assoc line (10 ∷ []) lines) in
    let later =
      scan_lines pread fuel ms next rest (subst LineStart whole_line (behind (front ++ line)))
        ok.1 in
    scan_line pread fuel (length (lines_text ms [])) (length (lines_text (m ∷ ms) [])) front line
      lines (range_of m) (shown_of pread fuel ms) start (line-Whole m ok.0)
      (length-append line (10 ∷ lines_text ms [])) (rw same at later)

-- ===== src/Pagemap/Maps/Lines/Scan.antt =====
-- The loop of `parse_maps` (os_02/lab_04/src/part_01/pagemap.c) over whole lines.
use operating_sys.Base.{
  ℕ, zero, suc, ◌+◌, ◌-◌, ◌<◌, ◌≡◌, refl, sym, ap, ◌∙◌, subst, ◌≢◌, false, Option, List, [], ◌∷◌,
  ◌++◌, map, append_assoc, arith, ◌==◌, if◌then◌else◌, length, get_or, set, All, length-append,
}
use operating_sys.Base.Outcome.{Outcome, done, exited, aborted, fault, out_of_fuel, ◌>>=◌}
use operating_sys.Base.{length-snoc}
use operating_sys.Base.Memory.{drop-append}
use operating_sys.Pagemap.{Range, handle_virtual_range}
use operating_sys.Pagemap.Maps.{Shown, back, beginning, handle_line}
use operating_sys.Pagemap.Maps.Lines.Shape.{Whole}

pub get_or-append :
    (front xs : List ℕ) (j : ℕ) → get_or (front ++ xs) (length front + j) 0 ≡ get_or xs j 0
get_or-append [] xs j = ap (λ i. get_or xs i 0) (omega arith)
get_or-append (x ∷ front) xs j =
    ap (λ i. get_or (x ∷ front ++ xs) i 0) suc_out ∙ get_or-append front xs j
  where
    suc_out : suc (length front) + j ≡ suc (length front + j)
    suc_out = omega arith

pub get_or-no_newline :
    (line rest : List ℕ) (j : ℕ)
    → All (λ b. b ≢ 10) line
    → j < length line
    → get_or (line ++ 10 ∷ rest) j 0 ≢ 10
get_or-no_newline [] rest j a h = absurd (omega arith)
get_or-no_newline (b ∷ line) rest zero a h = a.0
get_or-no_newline (b ∷ line) rest (suc j) a h = get_or-no_newline line rest j a.1 (omega arith)

-- Behind a newline, or at the start of the buffer.
pub data LineStart : List ℕ → Type 0 where
  at_start : LineStart []
  behind : (front : List ℕ) → LineStart (front ++ 10 ∷ [])

-- Going back over a line stops at its first byte.
back_to :
    (front line rest : List ℕ) (j : ℕ)
    → All (λ b. b ≢ 10) line
    → j < length line
    → back (front ++ (line ++ 10 ∷ rest)) (length front + j)
      ≡ back (front ++ (line ++ 10 ∷ rest)) (length front)
unfolding back
back_to front line rest zero a h = ap (back (front ++ (line ++ 10 ∷ rest))) (omega arith)
back_to front line rest (suc j) a h =
    let buffer = front ++ (line ++ 10 ∷ rest) in
    let same : length front + suc j ≡ suc (length front + j) = omega arith in
    let no : (get_or buffer (suc (length front + j)) 0 == 10) ≡ false = ground (
      arith,
      get_or-append front (line ++ 10 ∷ rest) (suc j),
      get_or-no_newline line rest (suc j) a h,
      same,
    ) in
    rw (same, no) (back_to front line rest j a (omega arith))

back_newline : (buffer : List ℕ) (x : ℕ) → get_or buffer x 0 ≡ 10 → back buffer x ≡ x
unfolding back
back_newline buffer zero e = refl
back_newline buffer (suc x) e = rw e refl

back_other :
    (buffer : List ℕ) (x : ℕ) → get_or buffer (suc x) 0 ≢ 10 → back buffer (suc x) ≡ back buffer x
unfolding back
back_other buffer x ne = ground arith

beginning-line :
    (front line rest : List ℕ)
    → LineStart front
    → All (λ b. b ≢ 10) line
    → 0 < length line
    → beginning (front ++ (line ++ 10 ∷ rest)) (length front + length line) ≡ length front
unfolding back
beginning-line front line rest start a h =
    let buffer = front ++ (line ++ 10 ∷ rest) in
    let last : length front + length line - 1 ≡ length front + (length line - 1) = omega arith in
    rw (last, back_to front line rest (length line - 1) a (omega arith)) (found front start)
  where
    found :
        (front : List ℕ)
        → LineStart front
        → (if get_or
                (front ++ (line ++ 10 ∷ rest))
                (back (front ++ (line ++ 10 ∷ rest)) (length front))
                0
              == 10
            then back (front ++ (line ++ 10 ∷ rest)) (length front) + 1
            else back (front ++ (line ++ 10 ∷ rest)) (length front))
          ≡ length front
    found _ at_start = ground (arith, get_or-no_newline line rest 0 a h)
    found _ (behind front) =
        let whole = front ++ 10 ∷ [] in
        let buffer = whole ++ (line ++ 10 ∷ rest) in
        let first : get_or buffer (length whole) 0 ≢ 10 =
          ground
            (arith, get_or-append whole (line ++ 10 ∷ rest) 0, get_or-no_newline line rest 0 a h) in
        let newline : get_or buffer (length front) 0 ≡ 10 =
          rw (append_assoc front (10 ∷ []) (line ++ 10 ∷ rest)) (
            ap (λ i. get_or (front ++ 10 ∷ (line ++ 10 ∷ rest)) i 0) (omega arith)
            ∙ get_or-append front (10 ∷ (line ++ 10 ∷ rest)) 0) in
        let one : length whole ≡ suc (length front) = length-snoc front 10 ∙ omega arith in
        let back_one : back buffer (length whole) ≡ length front =
          ap (back buffer) one
          ∙ back_other buffer (length front) (λ e. first (ap (λ i. get_or buffer i 0) one ∙ e))
          ∙ back_newline buffer (length front) newline in
        rw (back_one, newline) (omega (arith, one))

set_same :
    (front rest : List ℕ) (i : ℕ)
    → i ≡ length front
    → set (front ++ 10 ∷ rest) i 10 ≡ front ++ 10 ∷ rest
set_same [] rest zero e = refl
set_same [] rest (suc i) e = absurd (omega (arith, e))
set_same (x ∷ front) rest zero e = absurd (omega (arith, e))
set_same (x ∷ front) rest (suc i) e = ap (◌∷◌ x) (set_same front rest i (omega (arith, e)))

-- the pages of a range, with its name
abbrev pub pages_of : (pread : ℕ → Option ℕ) (fuel : ℕ) → Range → Outcome (List Shown)
pages_of pread fuel range = do
  pages ← handle_virtual_range pread fuel range.low range.high
  done (map (λ p. record { page = p; lib_name = range.lib_name }) pages)

pub bind_assoc {ℓ} :
    {A B C : Type ℓ} (o : Outcome A) (f : A → B) (g : B → Outcome C)
    → ((o >>= λ a. done (f a)) >>= g) ≡ (o >>= λ a. g (f a))
bind_assoc (done a) f g = refl
bind_assoc (exited n) f g = refl
bind_assoc aborted f g = refl
bind_assoc fault f g = refl
bind_assoc out_of_fuel f g = refl

pub handle_line-pages_of :
    (pread : ℕ → Option ℕ) (fuel : ℕ) (front line rest : List ℕ) (range : Range)
    → LineStart front
    → Whole line range
    → handle_line pread fuel (front ++ (line ++ 10 ∷ rest)) (length front + length line)
      ≡ (do shown ← pages_of pread fuel range; done (shown, front ++ (line ++ 10 ∷ rest)))
unfolding handle_line
handle_line-pages_of pread fuel front line rest range start whole =
    let buffer = front ++ (line ++ 10 ∷ rest) in
    let some_name : (length (range.lib_name ++ 10 ∷ rest) == 0) ≡ false =
      ground (arith, length-append range.lib_name (10 ∷ rest)) in
    let y : length buffer - length (range.lib_name ++ 10 ∷ rest) + length range.lib_name
        ≡ length (front ++ line) =
      omega (
        arith,
        length-append front (line ++ 10 ∷ rest),
        length-append line (10 ∷ rest),
        length-append range.lib_name (10 ∷ rest),
        length-append front line,
        whole.name_short,
      ) in
    let restored = append_assoc front line (10 ∷ rest) in
    let same : set buffer (length (front ++ line)) 10 ≡ buffer =
      subst (λ b. set b (length (front ++ line)) 10 ≡ b) restored
        (set_same (front ++ line) rest (length (front ++ line)) refl) in
    rw
      (
        beginning-line front line rest start whole.no_newline whole.some_byte,
        drop-append front (line ++ 10 ∷ rest),
        whole.named rest,
        whole.parsed rest,
        whole.name_end rest,
        some_name,
        y,
        same,
      )
      (sym (
        bind_assoc (handle_virtual_range pread fuel range.low range.high)
          (λ pages. map (λ p. record { page = p; lib_name = range.lib_name }) pages)
          (λ shown. done (shown, buffer))))

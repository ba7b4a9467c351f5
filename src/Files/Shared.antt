-- ===== src/Files/Shared.antt =====
-- os_02/lab_05/src/01_thread.c: threads that read one open file, each through a stream of its own.
-- Every order of their steps is a path of Reach.
pub mod Once
pub mod Ends
use operating_sys.Base.{
  ℕ, zero, suc, ◌+◌, ◌-◌, ◌*◌, ◌/◌, ◌%◌, ◌^◌, ◌≤◌, ◌<◌, ◌≡◌, refl, sym, ap, ◌∙◌, subst, ◌≢◌, ◌↔◌,
  ◌⊎◌, inl, inr, Bool, true, false, not, ◌&&◌, ◌||◌, Option, none, some, List, [], ◌∷◌, ◌++◌, map,
  append_assoc, append-nil, arith, dec_lt, ℕ_discrete, ltb, leb, ◌==◌, if◌then◌else◌, ltb→lt,
  lt→ltb, leb→le, ==_iff, tests, Bool-cases, Option-cases, update, length, get_elem?, get_or, set,
  take, drop, replicate, All, length-append, length-take, take-append, length-set, length-replicate,
  get_elem?-set_self, get_elem?-set_ne, take-of_le,
}
use operating_sys.Base.Outcome.{
  Outcome, done, exited, aborted, fault, out_of_fuel, ◌>>=◌, ◌>>◌, char_at, ℤ, pos, negsuc, minus,
  nonzero, negative, within,
}
use operating_sys.Base.Family.{sum_over, sum_over-update, sum_over_zero}
use operating_sys.Files.{scan_char}
use operating_sys.Files.Stream.{pending, head_of, scan_char-pending}

-- What `open_read` does next, and the bytes in its buffer: a call of `fscanf`, the output of the
-- byte that it gave, or nothing more.
pub data Thread : Type 0 where
  scanning : (waiting : List ℕ) → Thread
  printing : (c : ℕ) (waiting : List ℕ) → Thread
  ended : Thread

-- The offset of the file, the threads, and what was printed.
pub record System : Type 0 where
  pub offset : ℕ
  pub thread : ℕ → Thread
  pub printed : List ℕ

pub data Move (file : List ℕ) (s : System)
    : Thread → (offset : ℕ) (printed : List ℕ) → Thread → Type 0 where
  scan :
      {waiting : List ℕ} {c : ℕ}
      → (scan_char file waiting s.offset).0 ≡ some c
      → Move file s
          (scanning waiting)
          (scan_char file waiting s.offset).2
          s.printed
          (printing c (scan_char file waiting s.offset).1)
  end_of_file :
      {waiting : List ℕ}
      → (scan_char file waiting s.offset).0 ≡ none
      → Move file s (scanning waiting) (scan_char file waiting s.offset).2 s.printed ended
  print :
      {c : ℕ} {waiting : List ℕ}
      → Move file s (printing c waiting) s.offset (s.printed ++ c ∷ []) (scanning waiting)

-- Any of the first `n` threads may move.
pub data Step (file : List ℕ) (n : ℕ) (s : System) : System → Type 0 where
  pick :
      (i : ℕ) {o : ℕ} {out : List ℕ} {t : Thread}
      → i < n
      → Move file s (s.thread i) o out t
      → Step file n s (record { offset = o; thread = update s.thread i t; printed = out })

abbrev pub initial : System
initial = record { offset = 0; thread = λ i. scanning []; printed = [] }

pub data Reach (file : List ℕ) (n : ℕ) : System → Type 0 where
  start : Reach file n initial
  later : {s t : System} → Reach file n s → Step file n s t → Reach file n t

abbrev pub count : ℕ → List ℕ → ℕ
count b [] = 0
count b (c ∷ cs) = (if c == b then 1 else 0) + count b cs

-- the bytes that a thread has and has not printed
abbrev pub held : Thread → List ℕ
held (scanning waiting) = waiting
held (printing c waiting) = c ∷ waiting
held ended = []

pub count-append : (b : ℕ) (xs ys : List ℕ) → count b (xs ++ ys) ≡ count b xs + count b ys
count-append b [] ys = omega arith
count-append b (x ∷ xs) ys = omega (arith, count-append b xs ys)

abbrev pub weight : ℕ → Thread → ℕ
weight b t = count b (held t)

-- The counts of a call that gives a byte, and of one that gives none.
pub scan-count :
    (file waiting : List ℕ) (offset b c : ℕ)
    → (scan_char file waiting offset).0 ≡ some c
    → count b (c ∷ (scan_char file waiting offset).1)
        + count b (drop (scan_char file waiting offset).2 file)
      ≡ count b waiting + count b (drop offset file)
scan-count file waiting offset b c given =
    let after = scan_char file waiting offset in
    let (first, rest) = scan_char-pending file waiting offset in
    let head = sym first ∙ given in
    let whole = count_head (pending file waiting offset) head in
    omega (
      arith,
      whole,
      count-append b waiting (drop offset file),
      count-append b after.1 (drop after.2 file),
      ap (count b) rest,
    )
  where
    count_head :
        (xs : List ℕ)
        → head_of xs ≡ some c
        → count b xs ≡ (if c == b then 1 else 0) + count b (drop 1 xs)
    count_head [] e = ground arith
    count_head (x ∷ xs) e = ground arith

no_head : (xs : List ℕ) → head_of xs ≡ none → xs ≡ []
no_head [] e = refl
no_head (x ∷ xs) e = cc

append_nil_right {ℓ} : {A : Type ℓ} (xs ys : List A) → xs ++ ys ≡ [] → (xs ≡ []) × (ys ≡ [])
append_nil_right [] ys e = (refl, e)
append_nil_right (x ∷ xs) ys e = cc

-- At the end of the file the offset is behind it, and stays there.
pub scan_none :
    (file waiting : List ℕ) (offset : ℕ)
    → (scan_char file waiting offset).0 ≡ none
    → (waiting ≡ []) × (drop offset file ≡ []) × (drop (scan_char file waiting offset).2 file ≡ [])
scan_none file waiting offset given =
    let after = scan_char file waiting offset in
    let (first, rest) = scan_char-pending file waiting offset in
    let empty = no_head (pending file waiting offset) (sym first ∙ given) in
    let parts = append_nil_right waiting (drop offset file) empty in
    let ends = append_nil_right after.1 (drop after.2 file) (rest ∙ ap (drop 1) empty) in
    (parts.0, parts.1, ends.1)

pub scan_past :
    (file waiting : List ℕ) (offset : ℕ)
    → drop offset file ≡ []
    → drop (scan_char file waiting offset).2 file ≡ []
scan_past file [] offset past =
    let after = scan_char file [] offset in
    let (first, rest) = scan_char-pending file [] offset in
    (append_nil_right after.1 (drop after.2 file) (rest ∙ ap (drop 1) past)).1
scan_past file (b ∷ bs) offset past = unfold scan_char in past

-- ===== src/Pagemap/Maps/Lines/Shape.antt =====
-- The bytes of a line of the memory map, for the scan in os_02/lab_04/src/part_01/pagemap.c.
use operating_sys.Base.{
  ℕ, zero, suc, ◌≤◌, ◌<◌, ◌≡◌, ◌≢◌, List, [], ◌∷◌, ◌++◌, map, append_assoc, append-nil, arith,
  length, replicate, All, length-append,
}
use operating_sys.Pagemap.{Range, name_of, before_newline, parse_line}
use operating_sys.Pagemap.Parse.{digit, hex_value}
use operating_sys.Pagemap.Maps.Lines.{
  MapLine, IsMapLine, IsWord, fields_text, line_text, before_newline-name, name_of-name,
  parse_line-parts,
}

All-append {ℓ κ} :
    {A : Type ℓ} (P : A → Type κ) (xs ys : List A) → All P xs → All P ys → All P (xs ++ ys)
All-append P [] ys a b = b
All-append P (x ∷ xs) ys a b = (a.0, All-append P xs ys a.1 b)

-- What the scan of the buffer needs of a line without its newline.
pub record Whole (line : List ℕ) (range : Range) : Type 0 where
  pub no_newline : All (λ b. b ≢ 10) line
  pub some_byte : 0 < length line
  pub named : (rest : List ℕ) → name_of (line ++ 10 ∷ rest) ≡ range.lib_name ++ 10 ∷ rest
  pub parsed : (rest : List ℕ) → parse_line (line ++ 10 ∷ rest) ≡ range
  pub name_end : (rest : List ℕ) → before_newline (range.lib_name ++ 10 ∷ rest) ≡ range.lib_name
  pub name_short : length range.lib_name ≤ length line

line_text-append : (m : MapLine) (rest : List ℕ) → line_text m [] ++ rest ≡ line_text m rest
line_text-append m rest = simp append_assoc

word-no_newline : (f : List ℕ) → IsWord f → All (λ b. b ≢ 10) f
word-no_newline [] w = tt
word-no_newline (b ∷ f) w = (w.0.1, word-no_newline f w.1)

digits-no_newline : (ds : List ℕ) → All (λ b. b ≢ 10) (map digit ds)
digits-no_newline [] = tt
digits-no_newline (d ∷ ds) = (ground arith, digits-no_newline ds)

blanks-no_newline : (n : ℕ) → All (λ (b : ℕ). b ≢ 10) (replicate n 32)
blanks-no_newline zero = tt
blanks-no_newline (suc n) = (omega arith, blanks-no_newline n)

abbrev NotNewline : ℕ → Type 0
NotNewline b = b ≢ 10

-- a word, a space and what follows
word_space :
    (f rest : List ℕ)
    → IsWord f
    → All NotNewline rest
    → All NotNewline (f ++ 32 ∷ rest) × (length rest ≤ length (f ++ 32 ∷ rest))
word_space f rest w a = (
  All-append NotNewline f (32 ∷ rest) (word-no_newline f w) (omega arith, a),
  omega (arith, length-append f (32 ∷ rest)),
)

fields_end :
    (m : MapLine)
    → IsMapLine m
    → All NotNewline (fields_text m []) × (length m.name ≤ length (fields_text m []))
fields_end m ok =
    let name = m.name ++ [] in
    let named = replicate m.blanks 32 ++ name in
    let (w1, w2, w3, w4) = ok.words in
    let named_ok =
      All-append NotNewline (replicate m.blanks 32) name (blanks-no_newline m.blanks)
        (rw (append-nil m.name) ok.name) in
    let (a4, l4) = word_space m.inode named w4 named_ok in
    let (a3, l3) = word_space m.dev (m.inode ++ 32 ∷ named) w3 a4 in
    let (a2, l2) = word_space m.place (m.dev ++ (32 ∷ m.inode ++ 32 ∷ named)) w2 a3 in
    let (a1, l1) =
      word_space m.perms (m.place ++ (32 ∷ m.dev ++ (32 ∷ m.inode ++ 32 ∷ named))) w1 a2 in
    (
      a1,
      omega (
        arith,
        l1,
        l2,
        l3,
        l4,
        length-append (replicate m.blanks 32) name,
        length-append m.name [],
      ),
    )

pub range_of : MapLine → Range
range_of m = record { low = hex_value 0 m.lo; high = hex_value 0 m.hi; lib_name = m.name }

pub line-Whole : (m : MapLine) → IsMapLine m → Whole (line_text m []) (range_of m)
unfolding range_of
line-Whole m ok =
    let (no_newline, short) = fields_end m ok in
    let behind = map digit m.hi ++ 32 ∷ fields_text m [] in
    record {
      no_newline = All-append NotNewline (map digit m.lo) (45 ∷ behind) (digits-no_newline m.lo) (
        omega arith,
        All-append NotNewline (map digit m.hi) (32 ∷ fields_text m []) (digits-no_newline m.hi)
            (omega arith, no_newline),
      );
      some_byte = omega (arith, length-append (map digit m.lo) (45 ∷ behind));
      named = λ rest. rw (line_text-append m (10 ∷ rest)) (name_of-name m ok rest);
      parsed = λ rest. rw (line_text-append m (10 ∷ rest)) (parse_line-parts m ok rest);
      name_end = λ rest. before_newline-name m.name rest ok.name;
      name_short = omega (
        arith,
        short,
        length-append (map digit m.lo) (45 ∷ behind),
        length-append (map digit m.hi) (32 ∷ fields_text m []),
      );
    }

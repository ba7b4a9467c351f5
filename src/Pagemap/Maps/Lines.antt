-- ===== src/Pagemap/Maps/Lines.antt =====
-- A line of the memory map as the kernel prints it, in the buffer of
-- os_02/lab_04/src/part_01/pagemap.c.
pub mod Shape
pub mod Scan
pub mod Rounds
pub mod Reads
use operating_sys.Base.{
  ℕ, zero, suc, ◌+◌, ◌-◌, ◌*◌, ◌/◌, ◌%◌, ◌^◌, ◌≤◌, ◌<◌, ◌≡◌, refl, sym, ap, ◌∙◌, subst, ◌≢◌, ◌↔◌,
  ◌⊎◌, inl, inr, Bool, true, false, not, ◌&&◌, ◌||◌, Option, none, some, List, [], ◌∷◌, ◌++◌, map,
  append_assoc, append-nil, arith, dec_lt, ℕ_discrete, ltb, leb, ◌==◌, if◌then◌else◌, ltb→lt,
  lt→ltb, leb→le, ==_iff, tests, Bool-cases, Option-cases, update, length, get_elem?, get_or, set,
  take, drop, replicate, All, length-append, length-take, take-append, length-set, length-replicate,
  get_elem?-set_self, get_elem?-set_ne, take-of_le,
}
use operating_sys.Base.Outcome.{
  Outcome, done, exited, aborted, fault, out_of_fuel, ◌>>=◌, ◌>>◌, char_at, ℤ, pos, negsuc, minus,
  nonzero, negative, within,
}
use operating_sys.Pagemap.{
  Range, word, is_last, read_hex, skip_to, skip_spaces, skip_fields, name_of, before_newline,
  parse_line,
}
use operating_sys.Pagemap.Parse.{digit, hex_value, read_hex-hex_value}

-- The parts of a line: two addresses in base 16, four fields, at least one space, and a name that
-- can be empty.
pub record MapLine : Type 0 where
  pub lo : List ℕ
  pub hi : List ℕ
  pub perms : List ℕ
  pub place : List ℕ
  pub dev : List ℕ
  pub inode : List ℕ
  pub blanks : ℕ
  pub name : List ℕ

abbrev pub fields_text : MapLine → List ℕ → List ℕ
fields_text m rest =
    m.perms
    ++ (32 ∷ m.place
        ++ (32 ∷ m.dev ++ (32 ∷ m.inode ++ (32 ∷ replicate m.blanks 32 ++ (m.name ++ rest)))))

-- the line, and `rest` behind it
abbrev pub line_text : MapLine → List ℕ → List ℕ
line_text m rest = map digit m.lo ++ 45 ∷ (map digit m.hi ++ 32 ∷ fields_text m rest)

abbrev pub IsWord : List ℕ → Type 0
IsWord f = All (λ b. (b ≢ 32) × (b ≢ 10)) f

abbrev pub starts_with_space : List ℕ → Bool
starts_with_space [] = false
starts_with_space (c ∷ cs) = c == 32

pub record IsMapLine (m : MapLine) : Type 0 where
  pub lo : All (λ d. d < 16) m.lo
  pub hi : All (λ d. d < 16) m.hi
  pub lo_fits : hex_value 0 m.lo < word
  pub hi_fits : hex_value 0 m.hi < word
  pub words : IsWord m.perms × IsWord m.place × IsWord m.dev × IsWord m.inode
  pub name : All (λ b. b ≢ 10) m.name
  pub name_start : starts_with_space m.name ≡ false

pub skip_to-word : (f rest : List ℕ) → IsWord f → skip_to 32 (f ++ 32 ∷ rest) ≡ 32 ∷ rest
unfolding skip_to
skip_to-word [] rest w = refl
skip_to-word (b ∷ []) rest w = ground (arith, w.0.0)
skip_to-word (b ∷ d ∷ f) rest w = ground (arith, w.0.0, skip_to-word (d ∷ f) rest w.1)

skip_spaces-name :
    (n : ℕ) (name rest : List ℕ)
    → starts_with_space name ≡ false
    → skip_spaces (replicate n 32 ++ (name ++ 10 ∷ rest)) ≡ name ++ 10 ∷ rest
unfolding skip_spaces
skip_spaces-name zero [] rest s = refl
skip_spaces-name zero (c ∷ name) rest s = ground arith
skip_spaces-name (suc zero) [] rest s = refl
skip_spaces-name (suc zero) (c ∷ name) rest s = skip_spaces-name zero (c ∷ name) rest s
skip_spaces-name (suc (suc n)) name rest s = skip_spaces-name (suc n) name rest s

pub before_newline-name :
    (name rest : List ℕ) → All (λ b. b ≢ 10) name → before_newline (name ++ 10 ∷ rest) ≡ name
unfolding before_newline
before_newline-name [] rest a = refl
before_newline-name (b ∷ []) rest a = ground (arith, a.0)
before_newline-name (b ∷ c ∷ name) rest a =
    ground (arith, a.0, before_newline-name (c ∷ name) rest a.1)

module _ (m : MapLine) (ok : IsMapLine m) (rest : List ℕ) where
  read_lo :
      read_hex 45 0 (line_text m (10 ∷ rest))
      ≡ (hex_value 0 m.lo, 45 ∷ (map digit m.hi ++ 32 ∷ fields_text m (10 ∷ rest)))
  read_lo =
      read_hex-hex_value 45 0 m.lo (map digit m.hi ++ 32 ∷ fields_text m (10 ∷ rest)) (omega arith)
        ok.lo ok.lo_fits

  read_hi :
      read_hex 32 0 (map digit m.hi ++ 32 ∷ fields_text m (10 ∷ rest))
      ≡ (hex_value 0 m.hi, 32 ∷ fields_text m (10 ∷ rest))
  read_hi = read_hex-hex_value 32 0 m.hi (fields_text m (10 ∷ rest)) (omega arith) ok.hi ok.hi_fits

  skip_fields-name :
      skip_fields 4 (32 ∷ fields_text m (10 ∷ rest))
      ≡ 32 ∷ replicate m.blanks 32 ++ (m.name ++ 10 ∷ rest)
  unfolding skip_fields
  skip_fields-name =
      let named = replicate m.blanks 32 ++ (m.name ++ 10 ∷ rest) in
      let (w1, w2, w3, w4) = ok.words in
      rw
        (
          skip_to-word m.perms (m.place ++ (32 ∷ m.dev ++ (32 ∷ m.inode ++ 32 ∷ named))) w1,
          skip_to-word m.place (m.dev ++ (32 ∷ m.inode ++ 32 ∷ named)) w2,
          skip_to-word m.dev (m.inode ++ 32 ∷ named) w3,
          skip_to-word m.inode named w4,
        )
        refl

  -- The loops over the fields stop at the name.
  pub name_of-name : name_of (line_text m (10 ∷ rest)) ≡ m.name ++ 10 ∷ rest
  unfolding name_of skip_to
  name_of-name =
      rw (read_lo, read_hi, skip_fields-name)
        (skip_spaces-name (suc m.blanks) m.name rest ok.name_start)

  pub parse_line-parts :
      parse_line (line_text m (10 ∷ rest))
      ≡ record { low = hex_value 0 m.lo; high = hex_value 0 m.hi; lib_name = m.name }
  unfolding parse_line skip_to
  parse_line-parts =
      rw (name_of-name, before_newline-name m.name rest ok.name, read_lo, read_hi) refl

-- ===== src/Fortune/Proc/Take.antt =====
-- A read of fort_proc.c takes the next cookie of the shelf.
use operating_sys.Base.{
  ℕ, ◌+◌, ◌≤◌, ◌≡◌, sym, ap, subst, false, some, List, [], ◌∷◌, ◌++◌, append_assoc, append-nil,
  arith, leb, ◌==◌, if◌then◌else◌, length, All, length-append,
}
use operating_sys.Base.Outcome.{done, pos}
use mathlib.Core.Option.{some-injective}
use operating_sys.Base.Memory.{c_string, IsText, c_string-append}
use operating_sys.Fortune.{max_cookie_len, Pot}
use operating_sys.Fortune.Proc.{reply, read__proc}
use operating_sys.Fortune.Proc.Shelf.{Shelf, take_next, encode, encode-append, Holds}

-- The path of a read on which nothing fails, from the place that the handler chooses.
read__proc_done :
    (p : Pot) (start : ℕ) (c : List ℕ)
    → (p.next_fortune == 0) ≡ false
    → (if leb p.next_fortune p.cookie_index then 0 else p.cookie_index) ≡ start
    → c_string p.pot start ≡ done c
    → length c + 2 ≤ max_cookie_len
    → read__proc p 0 0
      ≡ done (
        reply (pos (length c + 1)) (length c + 1) (c ++ 10 ∷ []),
        record p { cookie_index = start + (length c + 1) },
      )
unfolding read__proc
read__proc_done p start c some_cookies place text fits =
    rw (some_cookies, place, text) (ground arith)

layout-split :
    (rs us : List (List ℕ)) (c free : List ℕ)
    → encode (rs ++ c ∷ us) ++ free ≡ encode rs ++ (c ++ 0 ∷ (encode us ++ free))
layout-split rs us c free = simp (encode-append, append_assoc)

length-encode-split :
    (rs us : List (List ℕ)) (c : List ℕ)
    → length (encode (rs ++ c ∷ us)) ≡ length (encode rs) + length c + 1 + length (encode us)
length-encode-split rs us c = omega (
  arith,
  ap length (encode-append rs (c ∷ us)),
  length-append (encode rs) (encode (c ∷ us)),
  length-append c (0 ∷ encode us),
)

All-mid {ℓ} :
    {A : Type ℓ} (P : A → Type 0) (xs : List A) (y : A) (ys : List A) → All P (xs ++ y ∷ ys) → P y
All-mid P [] y ys h = h.0
All-mid P (x ∷ xs) y ys h = All-mid P xs y ys h.1

-- What a read does, stated for a place in the shelf.
abbrev Read : Pot → List ℕ → Shelf → Type 0
Read p c s =
    (p' : Pot) × (read__proc p 0 0
      ≡ done (reply (pos (length c + 1)) (length c + 1) (c ++ 10 ∷ []), p'))
    × Holds p' s

next_cookie :
    {p : Pot} (rs us : List (List ℕ)) (c : List ℕ)
    → Holds p (rs, c ∷ us)
    → length c + 2 ≤ max_cookie_len
    → Read p c (rs ++ c ∷ [], us)
next_cookie {p} rs us c h fits = (
  record p { cookie_index = p.cookie_index + (length c + 1) },
  read__proc_done p p.cookie_index c (ground (arith, h.write_end, length-encode-split rs us c))
      (ground (arith, h.write_end, h.read_end, length-encode-split rs us c))
      (rw (h.layout, h.read_end, layout-split rs us c h.free)
        (c_string-append (encode rs) c (encode us ++ h.free) (All-mid IsText rs c us h.texts)))
      fits,
  record {
    free = h.free;
    layout = rw append_assoc h.layout;
    size = h.size;
    write_end = rw append_assoc h.write_end;
    read_end = omega (
      arith,
      h.read_end,
      ap length (encode-append rs (c ∷ [])),
      length-append (encode rs) (encode (c ∷ [])),
      length-append c (0 ∷ []),
    );
    texts = rw append_assoc h.texts;
  },
)

first_cookie :
    {p : Pot} (rs : List (List ℕ)) (c : List ℕ)
    → Holds p (c ∷ rs, [])
    → length c + 2 ≤ max_cookie_len
    → Read p c (c ∷ [], rs)
first_cookie {p} rs c h fits = (
  record p { cookie_index = 0 + (length c + 1) },
  read__proc_done p 0 c (ground (arith, h.write_end, length-append c (0 ∷ encode (rs ++ []))))
      (ground (arith, h.write_end, h.read_end, same_end))
      (rw h.layout (
        rw (layout-split [] (rs ++ []) c h.free)
          (c_string-append [] c (encode (rs ++ []) ++ h.free) h.texts.0)))
      fits,
  record {
    free = h.free;
    layout = rw (append-nil rs) at h.layout;
    size = h.size;
    write_end = rw (append-nil rs) at h.write_end;
    read_end = omega (arith, length-append c (0 ∷ []));
    texts = rw (append-nil rs) at h.texts;
  },
)
  where
    same_end : length (encode (c ∷ rs)) ≡ length (encode ((c ∷ rs) ++ []))
    same_end = ap (λ l. length (encode l)) (sym (append-nil (c ∷ rs)))

-- A read from offset 0 gives the next cookie of the shelf and a newline, and moves the shelf on;
-- the cookie with its newline and NUL has to fit the module's line buffer.
pub read__proc-take_next :
    {p : Pot} (s : Shelf) (c : List ℕ) (s' : Shelf)
    → Holds p s
    → take_next s ≡ some (c, s')
    → length c + 2 ≤ max_cookie_len
    → (p' : Pot) × (read__proc p 0 0
        ≡ done (reply (pos (length c + 1)) (length c + 1) (c ++ 10 ∷ []), p'))
      × Holds p' s'
read__proc-take_next {p} (rs, d ∷ us) c s' h e fits =
    subst (λ q. length q.0 + 2 ≤ max_cookie_len → Read p q.0 q.1) (some-injective _ _ e)
      (next_cookie rs us d h) fits
read__proc-take_next {p} (d ∷ rs, []) c s' h e fits =
    subst (λ q. length q.0 + 2 ≤ max_cookie_len → Read p q.0 q.1) (some-injective _ _ e)
      (first_cookie rs d h) fits
read__proc-take_next ([], []) c s' h e fits = cc

-- ===== src/Fortune/Proc/Session.antt =====
-- Whole sessions with fort_proc.c: several writes, then several reads, each from offset 0.
use operating_sys.Base.{
  ℕ, zero, suc, ◌+◌, ◌≤◌, ◌≡◌, refl, List, [], ◌∷◌, ◌++◌, append_assoc, append-nil, arith, length,
  All, length-append,
}
use operating_sys.Base.Outcome.{Outcome, done, ◌>>=◌}
use operating_sys.Base.Memory.{IsText}
use operating_sys.Fortune.{max_cookie_len, Pot, fresh_pot}
use operating_sys.Fortune.Proc.{write__proc, read__proc}
use operating_sys.Fortune.Proc.Shelf.{
  encode, length-encode-snoc, Holds, fresh_pot-Holds, write__proc-Holds,
}
use operating_sys.Fortune.Proc.Take.{read__proc-take_next}

-- a cookie as the user writes it and gets it back: with a newline
abbrev pub line : List ℕ → List ℕ
line c = c ++ 10 ∷ []

abbrev pub lines : List (List ℕ) → List (List ℕ)
lines [] = []
lines (c ∷ cs) = line c ∷ lines cs

-- `echo` into the file for each text
unfoldable pub write_all : List (List ℕ) → Pot → Outcome Pot
write_all [] p = done p
write_all (b ∷ bs) p = do (r, p') ← write__proc p b 0; write_all bs p'

-- `cat` of the file, `n` times
unfoldable pub read_times : ℕ → Pot → Outcome (List (List ℕ))
read_times zero p = done []
read_times (suc n) p = do (r, p') ← read__proc p 0 0; rest ← read_times n p'; done (r.sent ∷ rest)

write_all-Holds :
    (cs rs us : List (List ℕ)) {p : Pot}
    → Holds p (rs, us)
    → All IsText cs
    → length (encode (rs ++ us)) + length (encode cs) ≤ max_cookie_len
    → (p' : Pot) × (write_all (lines cs) p ≡ done p') × Holds p' (rs, us ++ cs)
unfolding write_all
write_all-Holds [] rs us {p} h t fits = (p, refl, rw (append-nil us) h)
write_all-Holds (c ∷ cs) rs us {p} h t fits =
    let (p', ran, h') =
      write__proc-Holds (rs, us) c 10 h t.0 (omega (arith, length-append c (0 ∷ encode cs))) in
    let (p'', ran', h'') =
      write_all-Holds cs rs (us ++ c ∷ []) h' t.1
        (omega (arith, length-encode-snoc rs us c, length-append c (0 ∷ encode cs))) in
    (p'', rw ran ran', rw append_assoc at h'')

read_times-Holds :
    (us rs : List (List ℕ)) {p : Pot}
    → Holds p (rs, us)
    → All (λ c. length c + 2 ≤ max_cookie_len) us
    → read_times (length us) p ≡ done (lines us)
unfolding read_times
read_times-Holds [] rs h fits = refl
read_times-Holds (c ∷ us) rs h fits =
    let (p', ran, h') = read__proc-take_next (rs, c ∷ us) c (rs ++ c ∷ [], us) h refl fits.0 in
    rw (ran, read_times-Holds us (rs ++ c ∷ []) h' fits.1)

-- Cookies that are written to a freshly loaded module, one line each, come back in the order in
-- which they were written, one to a read, provided that they hold no NUL, that all of them with
-- their NULs fit the page, and that each with its newline and NUL fits the line buffer.
pub write_all-read_times :
    (cs : List (List ℕ))
    → All IsText cs
    → All (λ c. length c + 2 ≤ max_cookie_len) cs
    → length (encode cs) ≤ max_cookie_len
    → (write_all (lines cs) fresh_pot >>= read_times (length cs)) ≡ done (lines cs)
write_all-read_times cs t fits room =
    let (p, ran, h) = write_all-Holds cs [] [] fresh_pot-Holds t (omega arith) in
    rw ran (read_times-Holds cs [] h fits)

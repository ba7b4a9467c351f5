-- ===== src/Fortune/Seq/Show.antt =====
-- What a reader of the seq_file sees.
use operating_sys.Base.{
  ℕ, zero, suc, ◌+◌, ◌<◌, ◌≡◌, refl, ◌∙◌, none, some, List, [], ◌∷◌, ◌++◌, append_assoc, arith,
  length, length-append,
}
use operating_sys.Base.Outcome.{Outcome, done, ◌>>=◌, pos}
use operating_sys.Base.Memory.{IsText, c_string, c_string-append}
use operating_sys.Fortune.{Pot}
use operating_sys.Fortune.Seq.{seq_line, show__seq, start__seq, next__seq}

-- the lines of `n` records that are shown one after the other
pub show_times : ℕ → Pot → Outcome (List (List ℕ))
show_times zero p = done []
show_times (suc n) p = do (r, line, p') ← show__seq p; rest ← show_times n p'; done (line ∷ rest)

-- The path of `show__seq` on a cookie that starts where the handler looks.
show__seq_at :
    (p : Pot) (front c rest : List ℕ)
    → p.pot ≡ front ++ (c ++ 0 ∷ rest)
    → p.next_fortune ≡ length front
    → length front < p.cookie_index
    → IsText c
    → show__seq p
      ≡ done (pos 0, seq_line c, record p { next_fortune = length front + (length c + 6) })
unfolding show__seq
show__seq_at p front c rest layout place more t = ground (arith, text)
  where
    text : c_string p.pot p.next_fortune ≡ done c
    text = rw (layout, place) (c_string-append front c rest t)

-- With two cookies in a row, the second at least five bytes long, two records show the first
-- cookie whole and the second without its first five bytes: the read index moves by the length of
-- the printed line, whose prefix `seq: ` is not in the pot.
pub show_times-skips :
    (p : Pot) (front c skipped shown rest : List ℕ)
    → p.pot ≡ front ++ (c ++ 0 ∷ ((skipped ++ shown) ++ 0 ∷ rest))
    → p.next_fortune ≡ length front
    → length front + length c + 6 < p.cookie_index
    → length skipped ≡ 5
    → IsText c
    → IsText shown
    → show_times 2 p ≡ done (seq_line c ∷ seq_line shown ∷ [])
unfolding show_times
show_times-skips p front c skipped shown rest layout place more five t u = rw (
  show__seq_at p front c ((skipped ++ shown) ++ 0 ∷ rest) layout place (omega arith) t,
  show__seq_at (record p { next_fortune = length front + (length c + 6) })
      (front ++ (c ++ 0 ∷ skipped)) shown rest (layout ∙ simp append_assoc)
      (omega (arith, length-append front (c ++ 0 ∷ skipped), length-append c (0 ∷ skipped)))
      (omega (arith, length-append front (c ++ 0 ∷ skipped), length-append c (0 ∷ skipped))) u,
)

-- A sequence that starts shows one record: `next__seq` gives no further token, and the position
-- that it leaves makes the next `start__seq` end the file and set the position back to the start.
pub next__seq-start__seq :
    (count position : ℕ)
    → ((next__seq count position).0 ≡ none)
      × (start__seq (next__seq count position).2 ≡ (none, 0))
      × ((start__seq (start__seq (next__seq count position).2).1).0 ≡ some tt)
unfolding start__seq next__seq
next__seq-start__seq count position = (refl, ground arith, ground arith)

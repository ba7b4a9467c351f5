-- ===== src/Fortune/Seq.antt =====
-- os_02/lab_04/src/part_02/fort_seq.c: a pot of cookies that is written through its own handler
-- and read through the sequence operations of a seq_file.
pub mod Guard
pub mod Show
use operating_sys.Base.{
  ℕ, zero, suc, ◌+◌, ◌-◌, ◌*◌, ◌/◌, ◌%◌, ◌^◌, ◌≤◌, ◌<◌, ◌≡◌, refl, sym, ap, ◌∙◌, subst, ◌≢◌, ◌↔◌,
  ◌⊎◌, inl, inr, Bool, true, false, not, ◌&&◌, ◌||◌, Option, none, some, List, [], ◌∷◌, ◌++◌, map,
  append_assoc, append-nil, arith, dec_lt, ℕ_discrete, ltb, leb, ◌==◌, if◌then◌else◌, ltb→lt,
  lt→ltb, leb→le, ==_iff, tests, Bool-cases, Option-cases, update, length, get_elem?, get_or, set,
  take, drop, replicate, All, length-append, length-take, length-set, length-replicate,
  get_elem?-set_self, get_elem?-set_ne, take-of_le,
}
use operating_sys.Base.Outcome.{
  Outcome, done, exited, aborted, fault, out_of_fuel, ◌>>=◌, ◌>>◌, char_at, ℤ, pos, negsuc, minus,
  nonzero, negative, within,
}
use operating_sys.Base.Memory.{store_bytes, c_string}
use operating_sys.Fortune.{max_cookie_len, Pot, abl_spc, arriving, terminate}

pub write__seq : Pot → (buf : List ℕ) → (uncopied : ℕ) → Outcome (ℤ × Pot)
write__seq p buf uncopied =
    if ltb (abl_spc p.cookie_index) (length buf) then done (minus 28, p) else do
      pot ← store_bytes p.pot p.cookie_index (arriving buf uncopied)
      if not (uncopied == 0) then done (minus 14, record p { pot = pot }) else do
        pot' ← terminate pot (p.cookie_index + length buf)
        done (pos (length buf), record p { pot = pot'; cookie_index = p.cookie_index + length buf })

-- "seq: %s\n", cut to the line buffer as `snprintf` cuts it
abbrev pub seq_line : List ℕ → List ℕ
seq_line cookie = take (max_cookie_len - 1) (b's' ∷ b'e' ∷ b'q' ∷ b':' ∷ b' ' ∷ (cookie ++ 10 ∷ []))

-- The result, and what is printed into the seq_file. `snprintf` returns the length of the line
-- before it was cut: six more than the cookie's.
pub show__seq : Pot → Outcome (ℤ × List ℕ × Pot)
show__seq p =
    if p.cookie_index == 0
    then done (pos 0, [], p)
    else let start = if leb p.cookie_index p.next_fortune then 0 else p.next_fortune in
      do
        cookie ← c_string p.pot start
        let len = length cookie + 6
        done (pos 0, seq_line cookie, record p { next_fortune = start + len })

-- The token that starts a sequence is the address of `count`; `none` is NULL. The second part is
-- `*pos` afterwards.
pub start__seq : (position : ℕ) → Option (Unit {0}) × ℕ
start__seq position = if position == 0 then (some tt, position) else (none, 0)

-- The token is NULL; then come `count` and `*pos` afterwards.
pub next__seq : (count position : ℕ) → Option (Unit {0}) × ℕ × ℕ
next__seq count position = (none, (count + 1) % 2 ^ 64, position + 1)

-- ===== src/Fortune/Seq/Guard.antt =====
-- What the guard of `write__seq` lets through.
use operating_sys.Base.{
  ℕ, ◌+◌, ◌≤◌, ◌<◌, ◌≡◌, List, [], arith, dec_lt, ltb, ◌==◌, if◌then◌else◌, length,
}
use operating_sys.Base.Outcome.{Outcome, done, fault, ◌>>=◌, ℤ, pos, minus}
use operating_sys.Base.Memory.{
  store_bytes, splice, length-splice, store_bytes_fits, store_bytes_fault,
}
use operating_sys.Fortune.{max_cookie_len, Pot, terminate, terminate_fits}
use operating_sys.Fortune.Seq.{write__seq}

-- An outcome of a write without the bytes: the result, the write index and the size of the pot.
abbrev pub summary : Outcome (ℤ × Pot) → Outcome (ℤ × ℕ × ℕ)
summary o = do (r, p) ← o; done (r, p.cookie_index, length p.pot)

-- Every write of at least one byte that the user's memory backs, on a pot of a page: it is
-- refused if it ends more than one byte past the page, it writes past the page if it ends exactly
-- one byte past it, and otherwise it succeeds and the write index moves to its end.
pub write__seq_branches :
    (p : Pot) (buf : List ℕ)
    → length p.pot ≡ max_cookie_len
    → p.cookie_index ≤ max_cookie_len
    → 0 < length buf
    → summary (write__seq p buf 0) ≡ (
        if ltb (max_cookie_len + 1) (p.cookie_index + length buf)
        then done (minus 28, p.cookie_index, max_cookie_len)
        else if p.cookie_index + length buf == max_cookie_len + 1
        then fault
        else done (pos (length buf), p.cookie_index + length buf, max_cookie_len))
unfolding write__seq
write__seq_branches p buf size index some_bytes =
    elim (dec_lt (max_cookie_len + 1) (p.cookie_index + length buf)) [
      | yes refused ↦ ground arith
      | no admitted ↦ elim (dec_lt max_cookie_len (p.cookie_index + length buf)) [
        | yes past ↦
            ground (arith, store_bytes_fault p.pot p.cookie_index buf some_bytes (omega arith))
        | no fits ↦
            let stored = splice p.pot p.cookie_index buf in
            let (pot', ran, same) =
              terminate_fits stored (p.cookie_index + length buf) (omega arith)
                (omega (arith, length-splice p.pot p.cookie_index buf)) in
            ground (
              arith,
              ran,
              same,
              length-splice p.pot p.cookie_index buf,
              store_bytes_fits p.pot p.cookie_index buf some_bytes (omega arith),
            )
      ]
    ]

-- A write of no bytes on an empty pot puts its NUL in front of the pot.
pub write__seq_empty : (p : Pot) → p.cookie_index ≡ 0 → write__seq p [] 0 ≡ fault
unfolding write__seq terminate store_bytes
write__seq_empty p e = ground arith

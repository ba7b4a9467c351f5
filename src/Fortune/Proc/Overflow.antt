-- ===== src/Fortune/Proc/Overflow.antt =====
-- The guard of `write__proc` looks at `cookie_index`, where the next read starts, while the bytes
-- go to `next_fortune`.
use operating_sys.Base.{ℕ, ◌+◌, ◌≤◌, ◌<◌, ◌≡◌, List, arith, dec_lt, ltb, if◌then◌else◌, length}
use operating_sys.Base.Outcome.{Outcome, done, fault, ◌>>=◌, ℤ, pos, minus}
use operating_sys.Base.Memory.{splice, length-splice, store_bytes_fits, store_bytes_fault}
use operating_sys.Fortune.{max_cookie_len, Pot, terminate_fits}
use operating_sys.Fortune.Proc.{write__proc}

-- An outcome of a write without the bytes: the result, the two indices and the size of the pot.
abbrev pub summary : Outcome (ℤ × Pot) → Outcome (ℤ × ℕ × ℕ × ℕ)
summary o = do (r, p) ← o; done (r, p.cookie_index, p.next_fortune, length p.pot)

-- Every write of at least one byte that the user's memory backs, on a pot of a page: it is
-- refused exactly by the distance of the READ index from the end of the page (with one byte to
-- spare); otherwise it runs past the end of the page if the WRITE index and the length do, and
-- else it succeeds and moves the write index.
pub write__proc_branches :
    (p : Pot) (buf : List ℕ)
    → length p.pot ≡ max_cookie_len
    → p.cookie_index ≤ max_cookie_len
    → 0 < length buf
    → summary (write__proc p buf 0) ≡ (
        if ltb (max_cookie_len + 1) (p.cookie_index + length buf)
        then done (minus 28, p.cookie_index, p.next_fortune, max_cookie_len)
        else if ltb max_cookie_len (p.next_fortune + length buf)
        then fault
        else done (pos (length buf), p.cookie_index, p.next_fortune + length buf, max_cookie_len))
unfolding write__proc
write__proc_branches p buf size index some_bytes =
    elim (dec_lt (max_cookie_len + 1) (p.cookie_index + length buf)) [
      | yes refused ↦ ground arith
      | no admitted ↦ elim (dec_lt max_cookie_len (p.next_fortune + length buf)) [
        | yes past ↦
            ground (arith, store_bytes_fault p.pot p.next_fortune buf some_bytes (omega arith))
        | no fits ↦
            let stored = splice p.pot p.next_fortune buf in
            let (pot', ran, same) =
              terminate_fits stored (p.next_fortune + length buf) (omega arith)
                (omega (arith, length-splice p.pot p.next_fortune buf)) in
            ground (
              arith,
              ran,
              same,
              length-splice p.pot p.next_fortune buf,
              store_bytes_fits p.pot p.next_fortune buf some_bytes (omega arith),
            )
      ]
    ]

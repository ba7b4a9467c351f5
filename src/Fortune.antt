-- ===== src/Fortune.antt =====
-- The fortune cookies under /proc: what the modules of os_02/lab_04/src/part_02 have in common.
-- `fort_proc.c`, `fort_seq.c` and `temp/procfd_exam.c` are the children.
pub mod Proc
pub mod Seq
pub mod Exam
pub mod Lifecycle
mod Tests
use operating_sys.Base.{
  ℕ, zero, suc, ◌+◌, ◌-◌, ◌*◌, ◌/◌, ◌%◌, ◌^◌, ◌≤◌, ◌<◌, ◌≡◌, refl, sym, ap, ◌∙◌, subst, ◌≢◌, ◌↔◌,
  ◌⊎◌, inl, inr, Bool, true, false, not, ◌&&◌, ◌||◌, Option, none, some, List, [], ◌∷◌, ◌++◌, map,
  append_assoc, append-nil, arith, dec_lt, ℕ_discrete, ltb, leb, ◌==◌, if◌then◌else◌, ltb→lt,
  lt→ltb, leb→le, ==_iff, tests, Bool-cases, Option-cases, update, length, get_elem?, get_or, set,
  take, drop, replicate, All, length-append, length-take, length-set, length-replicate,
  get_elem?-set_self, get_elem?-set_ne, take-of_le,
}
use operating_sys.Base.Outcome.{
  Outcome, done, exited, aborted, fault, out_of_fuel, ◌>>=◌, ◌>>◌, char_at, ℤ, pos, negsuc, minus,
  nonzero, negative, within,
}
use operating_sys.Base.Memory.{
  splice, store_bytes_fits, length-splice, store_bytes, store_bytes-append,
}

-- MAX_COOKIE_LEN is PAGE_SIZE.
abbrev pub max_cookie_len : ℕ
max_cookie_len = 4096

-- `cookie_pot` and the two indices. Both are ints that the modules only ever raise from 0, by
-- lengths of at most a page, or reset.
pub record Pot : Type 0 where
  pub pot : List ℕ
  pub cookie_index : ℕ
  pub next_fortune : ℕ

-- the state behind a load that succeeded: the pot is filled with zeros
abbrev pub fresh_pot : Pot
fresh_pot = record { pot = replicate max_cookie_len 0; cookie_index = 0; next_fortune = 0 }

-- `MAX_COOKIE_LEN - cookie_index + 1`, an unsigned long that passes through an int and is compared
-- with a size_t
abbrev pub abl_spc : ℕ → ℕ
abl_spc cookie_index = (max_cookie_len + 2 ^ 64 - cookie_index + 1) % 2 ^ 64

-- What `copy_from_user` leaves in the target when the last `uncopied` bytes cannot be read: zeros.
abbrev pub arriving : List ℕ → ℕ → List ℕ
arriving buf uncopied =
    if uncopied == 0 then buf else take (length buf - uncopied) buf ++ replicate uncopied 0

-- `cookie_pot[i - 1] = '\0'`
unfoldable pub terminate : List ℕ → ℕ → Outcome (List ℕ)
unfolding store_bytes
terminate pot zero = fault
terminate pot (suc i) = store_bytes pot i (0 ∷ [])

-- The byte at the end of a known front becomes the NUL.
pub terminate-append :
    (xs ys : List ℕ) (b n : ℕ)
    → n ≡ suc (length xs)
    → terminate (xs ++ b ∷ ys) n ≡ done (xs ++ 0 ∷ ys)
unfolding terminate
terminate-append xs ys b n e = rw e (store_bytes-append xs (b ∷ ys) (0 ∷ []) (omega arith))

-- A NUL behind the first bytes of the pot is written where there are bytes, and keeps the size.
pub terminate_fits :
    (pot : List ℕ) (n : ℕ)
    → 0 < n
    → n ≤ length pot
    → (pot' : List ℕ) × (terminate pot n ≡ done pot') × (length pot' ≡ length pot)
unfolding terminate
terminate_fits pot zero some_bytes fits = absurd (omega arith)
terminate_fits pot (suc i) some_bytes fits = (
  splice pot i (0 ∷ []),
  store_bytes_fits pot i (0 ∷ []) (omega arith) (omega arith),
  length-splice pot i (0 ∷ []),
)

-- ===== src/Fortune/Proc.antt =====
-- os_02/lab_04/src/part_02/fort_proc.c: a pot of cookies that is written and read through its own
-- handlers. What `copy_from_user` and `copy_to_user` answer is an argument.
pub mod Shelf
pub mod Take
pub mod Session
pub mod Overflow
use operating_sys.Base.{
  ℕ, zero, suc, ◌+◌, ◌-◌, ◌*◌, ◌/◌, ◌%◌, ◌^◌, ◌≤◌, ◌<◌, ◌≡◌, refl, sym, ap, ◌∙◌, subst, ◌≢◌, ◌↔◌,
  ◌⊎◌, inl, inr, Bool, true, false, not, ◌&&◌, ◌||◌, Option, none, some, List, [], ◌∷◌, ◌++◌, map,
  append_assoc, append-nil, arith, dec_lt, ℕ_discrete, ltb, leb, ◌==◌, if◌then◌else◌, ltb→lt,
  lt→ltb, leb→le, ==_iff, tests, Bool-cases, Option-cases, update, length, get_elem?, get_or, set,
  take, drop, replicate, All, length-append, length-take, length-set, length-replicate,
  get_elem?-set_self, get_elem?-set_ne, take-of_le,
}
use operating_sys.Base.Outcome.{
  Outcome, done, exited, aborted, fault, out_of_fuel, ◌>>=◌, ◌>>◌, char_at, ℤ, pos, negsuc, minus,
  nonzero, negative, within,
}
use operating_sys.Base.Memory.{store_bytes, c_string}
use operating_sys.Fortune.{max_cookie_len, Pot, abl_spc, arriving, terminate}

-- `buf` holds the `len` bytes that the user passes.
unfoldable pub write__proc : Pot → (buf : List ℕ) → (uncopied : ℕ) → Outcome (ℤ × Pot)
write__proc p buf uncopied =
    if ltb (abl_spc p.cookie_index) (length buf) then done (minus 28, p) else do
      pot ← store_bytes p.pot p.next_fortune (arriving buf uncopied)
      if not (uncopied == 0) then done (minus 14, record p { pot = pot }) else do
        pot' ← terminate pot (p.next_fortune + length buf)
        done (pos (length buf), record p { pot = pot'; next_fortune = p.next_fortune + length buf })

-- what a read gives the user: the result, `*offp` afterwards, and the bytes in the user's buffer
pub record Reply : Type 0 where
  pub result : ℤ
  pub offset : ℕ
  pub sent : List ℕ

abbrev pub reply : ℤ → ℕ → List ℕ → Reply
reply r o s = record { result = r; offset = o; sent = s }

-- `uncopied` is what `copy_to_user` returns, the number of the last bytes that it could not give.
unfoldable pub read__proc : Pot → (offset uncopied : ℕ) → Outcome (Reply × Pot)
read__proc p offset uncopied =
    if ltb 0 offset || p.next_fortune == 0
    then done (reply (pos 0) offset [], p)
    else let start = if leb p.next_fortune p.cookie_index then 0 else p.cookie_index in
      do
        cookie ← c_string p.pot start
        within (length cookie + 2) max_cookie_len
        let len = length cookie + 1
        if uncopied == 0
            then done (
              reply (pos len) (offset + len) (cookie ++ 10 ∷ []),
              record p { cookie_index = start + len },
            )
            else done (
              reply (minus 14) offset (take (len - uncopied) (cookie ++ 10 ∷ [])),
              record p { cookie_index = start },
            )

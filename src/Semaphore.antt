-- ===== src/Semaphore.antt =====
-- System V semaphore sets, as os_01/lab_05/01.c and os_01/lab_05/02.c use them: the arrays of
-- operations that the two programs hand to `semop`, and what POSIX says of the call. The programs
-- are the children.
pub mod Buffer
pub mod ReadWrite
use operating_sys.Base.{
  ℕ, zero, suc, ◌+◌, ◌-◌, ◌*◌, ◌/◌, ◌%◌, ◌^◌, ◌≤◌, ◌<◌, ◌≡◌, refl, sym, ap, ◌∙◌, subst, ◌≢◌, ◌↔◌,
  ◌⊎◌, inl, inr, Bool, true, false, not, ◌&&◌, ◌||◌, Option, none, some, List, [], ◌∷◌, ◌++◌, map,
  append_assoc, append-nil, arith, dec_lt, ℕ_discrete, ltb, leb, ◌==◌, if◌then◌else◌, ltb→lt,
  lt→ltb, leb→le, ==_iff, tests, Bool-cases, Option-cases, update, length, get_elem?, get_or, set,
  take, drop, replicate, All, length-append, length-take, take-append, length-set, length-replicate,
  get_elem?-set_self, get_elem?-set_ne, take-of_le,
}
use operating_sys.Base.Outcome.{
  Outcome, done, exited, aborted, fault, out_of_fuel, ◌>>=◌, ◌>>◌, char_at, ℤ, pos, negsuc, minus,
  nonzero, negative, within,
}

-- `struct sembuf`. The flag is 0 in the one program and 1 in the other, which is neither IPC_NOWAIT
-- nor SEM_UNDO: a call that cannot proceed waits.
pub record Sembuf : Type 0 where
  pub num : ℕ
  pub op : ℤ

abbrev pub sembuf : ℕ → ℤ → Sembuf
sembuf n o = record { num = n; op = o }

-- the values of a set by number
abbrev pub Sems : Type 0
Sems = ℕ → ℕ

abbrev pub semop_by : ℤ → (num : ℕ) → Sems → Option Sems
semop_by (pos zero) n s = if s n == 0 then some s else none
semop_by (pos (suc k)) n s = some (update s n (s n + suc k))
semop_by (negsuc k) n s = if ltb k (s n) then some (update s n (s n - suc k)) else none

-- All operations of an array take effect, in order, or none does; `none` means that the caller
-- waits.
unfoldable pub semop : List Sembuf → Sems → Option Sems
semop [] s = some s
semop (b ∷ bs) s = elim (semop_by b.op b.num s) [ none ↦ none | some s' ↦ semop bs s' ]

-- ===== src/Semaphore/Buffer.antt =====
-- os_01/lab_05/01.c: producers and consumers over a buffer in shared memory. The buffer is never
-- reused: both positions only grow.
pub mod Counts
pub mod Invariant
pub mod Safety
pub mod Progress
pub mod Segment
mod Tests
use operating_sys.Base.{
  ℕ, zero, suc, ◌+◌, ◌-◌, ◌*◌, ◌/◌, ◌%◌, ◌^◌, ◌≤◌, ◌<◌, ◌≡◌, refl, sym, ap, ◌∙◌, subst, ◌≢◌, ◌↔◌,
  ◌⊎◌, inl, inr, Bool, true, false, not, ◌&&◌, ◌||◌, Option, none, some, List, [], ◌∷◌, ◌++◌, map,
  append_assoc, append-nil, arith, dec_lt, ℕ_discrete, ltb, leb, ◌==◌, if◌then◌else◌, ltb→lt,
  lt→ltb, leb→le, ==_iff, tests, Bool-cases, Option-cases, update, length, get_elem?, get_or, set,
  take, drop, replicate, All, length-append, length-take, take-append, length-set, length-replicate,
  get_elem?-set_self, get_elem?-set_ne, take-of_le,
}
use operating_sys.Base.Outcome.{
  Outcome, done, exited, aborted, fault, out_of_fuel, ◌>>=◌, ◌>>◌, char_at, ℤ, pos, negsuc, minus,
  nonzero, negative, within,
}
use operating_sys.Semaphore.{Sembuf, sembuf, Sems, semop}

-- the number of slots, and the numbers of the semaphores
abbrev pub slot_count : ℕ
slot_count = 9

abbrev pub sb : ℕ
sb = 0

abbrev pub se : ℕ
se = 1

abbrev pub sm : ℕ
sm = 2

abbrev pub prod_start : List Sembuf
prod_start = sembuf se (negsuc 0) ∷ sembuf sb (negsuc 0) ∷ []

abbrev pub prod_stop : List Sembuf
prod_stop = sembuf sb (pos 1) ∷ sembuf sm (pos 1) ∷ []

abbrev pub consum_start : List Sembuf
consum_start = sembuf sm (negsuc 0) ∷ sembuf sb (negsuc 0) ∷ []

abbrev pub consum_stop : List Sembuf
consum_stop = sembuf sb (pos 1) ∷ sembuf se (pos 1) ∷ []

-- What the processes share, and what was written to and read from the buffer so far, in order.
pub record Shared : Type 0 where
  pub sems : Sems
  pub buffer : ℕ → ℕ
  pub pos_prod : ℕ
  pub pos_consum : ℕ
  pub produced : List ℕ
  pub consumed : List ℕ

-- Where a process stands in its loop: before the first `semop`, behind it, behind the access to the
-- buffer, behind the increment of the position. `left` counts the rounds that follow the present
-- one, and in the first of the four the rounds that are left.
pub data Process : Type 0 where
  prod_out : (value left : ℕ) → Process
  prod_in : (value left : ℕ) → Process
  prod_wrote : (value left : ℕ) → Process
  prod_moved : (value left : ℕ) → Process
  cons_out : (left : ℕ) → Process
  cons_in : (left : ℕ) → Process
  cons_read : (left : ℕ) → Process
  cons_moved : (left : ℕ) → Process

-- One step of `prod`, as `create_prod` calls it, or of `consum`, as `create_consum` calls it.
pub data Move (m : Shared) : Process → Shared → Process → Type 0 where
  prod_enter :
      {v l : ℕ} {t : Sems}
      → semop prod_start m.sems ≡ some t
      → Move m (prod_out v (suc l)) (record m { sems = t }) (prod_in v l)
  prod_write :
      {v l : ℕ}
      → Move m
          (prod_in v l)
          (record m { buffer = update m.buffer m.pos_prod v; produced = m.produced ++ v ∷ [] })
          (prod_wrote v l)
  prod_advance :
      {v l : ℕ} → Move m (prod_wrote v l) (record m { pos_prod = m.pos_prod + 1 }) (prod_moved v l)
  prod_leave :
      {v l : ℕ} {t : Sems}
      → semop prod_stop m.sems ≡ some t
      → Move m (prod_moved v l) (record m { sems = t }) (prod_out (v + 1) l)
  cons_enter :
      {l : ℕ} {t : Sems}
      → semop consum_start m.sems ≡ some t
      → Move m (cons_out (suc l)) (record m { sems = t }) (cons_in l)
  cons_take :
      {l : ℕ}
      → Move m
          (cons_in l)
          (record m { consumed = m.consumed ++ m.buffer m.pos_consum ∷ [] })
          (cons_read l)
  cons_advance :
      {l : ℕ} → Move m (cons_read l) (record m { pos_consum = m.pos_consum + 1 }) (cons_moved l)
  cons_leave :
      {l : ℕ} {t : Sems}
      → semop consum_stop m.sems ≡ some t
      → Move m (cons_moved l) (record m { sems = t }) (cons_out l)

pub record System : Type 0 where
  pub shared : Shared
  pub process : ℕ → Process

-- the five processes that `main` forks: two consumers, then three producers
abbrev pub process_count : ℕ
process_count = 5

abbrev pub forked : ℕ → Process
forked i =
    if i == 0
    then cons_out 4
    else if i == 1
    then cons_out 5
    else if i == 2
    then prod_out 0 3
    else if i == 3
    then prod_out 10 3
    else prod_out 100 3

-- `main` behind `semctl`; the segment is zero, as `shmget` makes it.
abbrev pub initial : System
initial = record {
  shared = record {
    sems = λ k. if k == sb then 1 else if k == se then slot_count else 0;
    buffer = λ i. 0;
    pos_prod = 0;
    pos_consum = 0;
    produced = [];
    consumed = [];
  };
  process = forked;
}

pub data Step (s : System) : System → Type 0 where
  pick :
      (i : ℕ) {m : Shared} {p : Process}
      → i < process_count
      → Move s.shared (s.process i) m p
      → Step s (record { shared = m; process = update s.process i p })

pub data Reach : System → Type 0 where
  start : Reach initial
  later : {s t : System} → Reach s → Step s t → Reach t

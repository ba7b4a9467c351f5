-- ===== src/Pipes/Messages.antt =====
-- os_01/lab_04/src/04.c: two children write into a pipe, and the parent reads it byte by byte to
-- its end. Every order of the steps of the three processes is a path of Reach.
pub mod Phases
pub mod Steps
pub mod Received
pub mod Progress
use operating_sys.Base.{
  ℕ, zero, suc, ◌+◌, ◌-◌, ◌*◌, ◌/◌, ◌%◌, ◌^◌, ◌≤◌, ◌<◌, ◌≡◌, refl, sym, ap, ◌∙◌, subst, ◌≢◌, ◌↔◌,
  ◌⊎◌, inl, inr, Bool, true, false, not, ◌&&◌, ◌||◌, Option, none, some, List, [], ◌∷◌, ◌++◌, map,
  append_assoc, append-nil, arith, dec_lt, ℕ_discrete, ltb, leb, ◌==◌, if◌then◌else◌, ltb→lt,
  lt→ltb, leb→le, ==_iff, tests, Bool-cases, Option-cases, update, length, get_elem?, get_or, set,
  take, drop, replicate, All, length-append, length-take, take-append, length-set, length-replicate,
  get_elem?-set_self, get_elem?-set_ne, take-of_le,
}
use operating_sys.Base.Outcome.{
  Outcome, done, exited, aborted, fault, out_of_fuel, ◌>>=◌, ◌>>◌, char_at, ℤ, pos, negsuc, minus,
  nonzero, negative, within,
}
use operating_sys.Base.Memory.{store_bytes}
use operating_sys.Pipes.{rep_n, msg, Line, code_lines, completed}

-- A child: not yet started, about to write, ended, and waited for.
pub data Child : Type 0 where
  unborn : Child
  running : Child
  finished : Child
  reaped : Child

-- What the parent does next: the `fork` of round `i`; the `read` into `buff[index]`; the `wait` of
-- round `i`; nothing, since it has returned `code`.
pub data Parent : Type 0 where
  forking : (i : ℕ) → Parent
  reading : (index : ℕ) → Parent
  waiting : (i : ℕ) → Parent
  returned : (code : ℕ) → Parent

-- The bytes in the pipe, the array of the parent, and what it prints.
pub record System : Type 0 where
  pub pipe : List ℕ
  pub buffer : List ℕ
  pub parent : Parent
  pub child : ℕ → Child
  pub printed : List Line

-- A child that has ended has closed its ends of the pipe; the parent's own end for writing is
-- closed when it reads.
abbrev pub ended : Child → Bool
ended unborn = false
ended running = false
ended finished = true
ended reaped = true

pub data Step (s : System) : System → Type 0 where
  forks :
      {i : ℕ}
      → s.parent ≡ forking i
      → i < rep_n
      → Step s (record s { parent = forking (i + 1); child = update s.child i running })
  fork_fails :
      {i : ℕ} → s.parent ≡ forking i → i < rep_n → Step s (record s { parent = returned 3 })
  sends :
      (i : ℕ)
      → i < rep_n
      → s.child i ≡ running
      → Step s (record s { pipe = s.pipe ++ msg i; child = update s.child i finished })
  starts_reading : s.parent ≡ forking rep_n → Step s (record s { parent = reading 0 })
  reads :
      {index b : ℕ} {pipe buffer : List ℕ}
      → s.parent ≡ reading index
      → s.pipe ≡ b ∷ pipe
      → store_bytes s.buffer index (b ∷ []) ≡ done buffer
      → Step s (record s { parent = reading (index + 1); pipe = pipe; buffer = buffer })
  pipe_ends :
      {index : ℕ} {buffer : List ℕ}
      → s.parent ≡ reading index
      → s.pipe ≡ []
      → ended (s.child 0) ≡ true
      → ended (s.child 1) ≡ true
      → store_bytes s.buffer (index + 1) (0 ∷ []) ≡ done buffer
      → Step s (record s { parent = waiting 0; buffer = buffer })
  waits :
      {i : ℕ} (j pid status : ℕ)
      → s.parent ≡ waiting i
      → i < rep_n
      → j < rep_n
      → s.child j ≡ finished
      → Step s (record s {
        parent = waiting (i + 1);
        child = update s.child j reaped;
        printed = s.printed ++ (completed (pos pid) status ∷ code_lines i 0);
      })
  returns : s.parent ≡ waiting rep_n → Step s (record s { parent = returned 0 })

abbrev pub initial : (garbage : List ℕ) → System
initial garbage = record {
  pipe = [];
  buffer = garbage;
  parent = forking 0;
  child = λ i. unborn;
  printed = [];
}

pub data Reach (garbage : List ℕ) : System → Type 0 where
  start : Reach garbage (initial garbage)
  later : {s t : System} → Reach garbage s → Step s t → Reach garbage t

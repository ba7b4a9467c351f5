-- ===== src/Semaphore/ReadWrite.antt =====
-- os_01/lab_05/02.c: readers and writers of one shared number.
pub mod Invariant
pub mod Safety
mod Tests
use operating_sys.Base.{
  ℕ, zero, suc, ◌+◌, ◌-◌, ◌*◌, ◌/◌, ◌%◌, ◌^◌, ◌≤◌, ◌<◌, ◌≡◌, refl, sym, ap, ◌∙◌, subst, ◌≢◌, ◌↔◌,
  ◌⊎◌, inl, inr, Bool, true, false, not, ◌&&◌, ◌||◌, Option, none, some, List, [], ◌∷◌, ◌++◌, map,
  append_assoc, append-nil, arith, dec_lt, ℕ_discrete, ltb, leb, ◌==◌, if◌then◌else◌, ltb→lt,
  lt→ltb, leb→le, ==_iff, tests, Bool-cases, Option-cases, update, length, get_elem?, get_or, set,
  take, drop, replicate, All, length-append, length-take, take-append, length-set, length-replicate,
  get_elem?-set_self, get_elem?-set_ne, take-of_le,
}
use operating_sys.Base.Outcome.{
  Outcome, done, exited, aborted, fault, out_of_fuel, ◌>>=◌, ◌>>◌, char_at, ℤ, pos, negsuc, minus,
  nonzero, negative, within,
}
use operating_sys.Semaphore.{Sembuf, sembuf, Sems, semop}

abbrev pub start_read : List Sembuf
start_read =
    sembuf 3 (pos 0)
    ∷ sembuf 1 (pos 0)
    ∷ sembuf 0 (pos 1)
    ∷ sembuf 3 (negsuc 0)
    ∷ sembuf 2 (pos 1)
    ∷ []

abbrev pub stop_read : List Sembuf
stop_read = sembuf 0 (negsuc 0) ∷ []

abbrev pub start_write : List Sembuf
start_write =
    sembuf 3 (pos 1)
    ∷ sembuf 0 (pos 0)
    ∷ sembuf 2 (negsuc 0)
    ∷ sembuf 1 (pos 1)
    ∷ sembuf 3 (negsuc 0)
    ∷ []

abbrev pub stop_write : List Sembuf
stop_write = sembuf 1 (negsuc 0) ∷ sembuf 2 (pos 1) ∷ []

-- Where a process stands in its endless loop. `(*shm)++` reads, then writes.
pub data Process : Type 0 where
  reader_out : Process
  reader_in : Process
  writer_out : Process
  writer_in : Process
  writer_read : (seen : ℕ) → Process
  writer_wrote : Process

-- The values of an int, and the greatest of them. The program lets the shared number grow without
-- end; C leaves open what follows the greatest, here the 32 bits wrap around.
abbrev pub int_values : ℕ
int_values = 2 ^ 32

abbrev pub int_max : ℕ
int_max = 2147483647

-- The semaphores, the 32 bits of the shared number, the processes, and how many times a writer has
-- written.
pub record System : Type 0 where
  pub sems : Sems
  pub shm : ℕ
  pub process : ℕ → Process
  pub writes : ℕ

-- One step of a process. `reader` passes 3 as the number of operations, so that the last two of
-- `start_read` are never made.
pub data Move (s : System) : Process → (sems : Sems) → (shm writes : ℕ) → Process → Type 0 where
  enter_read :
      {t : Sems}
      → semop (take 3 start_read) s.sems ≡ some t
      → Move s reader_out t s.shm s.writes reader_in
  leave_read :
      {t : Sems}
      → semop (take 1 stop_read) s.sems ≡ some t
      → Move s reader_in t s.shm s.writes reader_out
  enter_write :
      {t : Sems}
      → semop (take 5 start_write) s.sems ≡ some t
      → Move s writer_out t s.shm s.writes writer_in
  read_number : Move s writer_in s.sems s.shm s.writes (writer_read s.shm)
  write_number :
      {v : ℕ} → Move s (writer_read v) s.sems ((v + 1) % int_values) (s.writes + 1) writer_wrote
  leave_write :
      {t : Sems}
      → semop (take 2 stop_write) s.sems ≡ some t
      → Move s writer_wrote t s.shm s.writes writer_out

-- Any of the first `n` processes may move.
pub data Step (n : ℕ) (s : System) : System → Type 0 where
  pick :
      (i : ℕ) {t : Sems} {m w : ℕ} {p : Process}
      → i < n
      → Move s (s.process i) t m w p
      → Step n s (record { sems = t; shm = m; process = update s.process i p; writes = w })

-- The set as `semget` and `semctl` leave it, and the processes as they are forked: WRITERS writers
-- and then readers.
abbrev pub initial : (writers : ℕ) → System
initial writers = record {
  sems = λ k. if k == 2 then 1 else 0;
  shm = 0;
  process = λ i. if ltb i writers then writer_out else reader_out;
  writes = 0;
}

pub data Reach (n writers : ℕ) : System → Type 0 where
  start : Reach n writers (initial writers)
  later : {s t : System} → Reach n writers s → Step n s t → Reach n writers t

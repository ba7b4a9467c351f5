-- ===== src/Files/Race.antt =====
-- os_02/lab_05/src/03_thread.c: two threads write letters into one file, each through a descriptor
-- of its own. Both get the address of the one structure `tdata`, which `main` fills anew for the
-- second thread; they read it again in every round. (The structure is a local variable of the loop
-- that creates them; its memory is taken to keep its value while `main` waits.) A `write` can fail;
-- all of a thread fail if its `open` has failed.
pub mod Letters
use operating_sys.Base.{
  ℕ, zero, suc, ◌+◌, ◌-◌, ◌*◌, ◌/◌, ◌%◌, ◌^◌, ◌≤◌, ◌<◌, ◌≡◌, refl, sym, ap, ◌∙◌, subst, ◌≢◌, ◌↔◌,
  ◌⊎◌, inl, inr, Bool, true, false, not, ◌&&◌, ◌||◌, Option, none, some, List, [], ◌∷◌, ◌++◌, map,
  append_assoc, append-nil, arith, dec_lt, ℕ_discrete, ltb, leb, ◌==◌, if◌then◌else◌, ltb→lt,
  lt→ltb, leb→le, ==_iff, tests, Bool-cases, Option-cases, update, length, get_elem?, get_or, set,
  take, drop, replicate, All, length-append, length-take, take-append, length-set, length-replicate,
  get_elem?-set_self, get_elem?-set_ne, take-of_le,
}
use operating_sys.Base.Outcome.{
  Outcome, done, exited, aborted, fault, out_of_fuel, ◌>>=◌, ◌>>◌, char_at, ℤ, pos, negsuc, minus,
  nonzero, negative, within,
}
use operating_sys.Files.{write_byte}

-- What `open_read` does next: nothing before it is created; the start of its loop; the `write` of
-- the letter `c`; the step of the loop behind it; nothing more. `offset` letters are written.
pub data Thread : Type 0 where
  absent : Thread
  opened : Thread
  writing : (c offset : ℕ) → Thread
  stepping : (c offset : ℕ) → Thread
  ended : (offset : ℕ) → Thread

-- What `main` does next: it fills the structure for thread `i`, or creates the thread.
pub data Main : Type 0 where
  fill : (i : ℕ) → Main
  create : (i : ℕ) → Main

-- `failures` counts the calls of `write` that have failed.
pub record System : Type 0 where
  pub file : List ℕ
  pub failures : ℕ
  pub thd_n : ℕ
  pub main : Main
  pub thread : ℕ → Thread

-- the test of the loop, `c <= 'z'`
abbrev pub loop : (c offset : ℕ) → Thread
loop c offset = if leb c 122 then writing c offset else ended offset

pub data Move (s : System) : Thread → (file : List ℕ) (failures : ℕ) → Thread → Type 0 where
  enter : Move s opened s.file s.failures (loop (97 + s.thd_n) 0)
  write : {c o : ℕ} → Move s (writing c o) (write_byte s.file o c) s.failures (stepping c (o + 1))
  write_fails : {c o : ℕ} → Move s (writing c o) s.file (s.failures + 1) (stepping c o)
  step : {c o : ℕ} → Move s (stepping c o) s.file s.failures (loop (c + (s.thd_n + 1)) o)

pub data Step (s : System) : System → Type 0 where
  filled : {i : ℕ} → i < 2 → s.main ≡ fill i → Step s (record s { thd_n = i; main = create i })
  created :
      {i : ℕ}
      → s.main ≡ create i
      → Step s (record s { main = fill (i + 1); thread = update s.thread i opened })
  moved :
      (i : ℕ) {f : List ℕ} {n : ℕ} {t : Thread}
      → Move s (s.thread i) f n t
      → Step s (record s { file = f; failures = n; thread = update s.thread i t })

abbrev pub initial : List ℕ → System
initial file = record { file = file; failures = 0; thd_n = 0; main = fill 0; thread = λ i. absent }

pub data Reach (file : List ℕ) : System → Type 0 where
  start : Reach file (initial file)
  later : {s t : System} → Reach file s → Step s t → Reach file t

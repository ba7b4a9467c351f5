-- ===== src/Monitor.antt =====
-- os_01/lab_06/main.c: readers and writers with a mutex and two events. Every access to a shared
-- variable and every call is a step of its own.
pub mod Counters
mod Tests
use operating_sys.Base.{
  ℕ, zero, suc, ◌+◌, ◌-◌, ◌*◌, ◌/◌, ◌%◌, ◌^◌, ◌≤◌, ◌<◌, ◌≡◌, refl, sym, ap, ◌∙◌, subst, ◌≢◌, ◌↔◌,
  ◌⊎◌, inl, inr, Bool, true, false, not, ◌&&◌, ◌||◌, Option, none, some, List, [], ◌∷◌, ◌++◌, map,
  append_assoc, append-nil, arith, dec_lt, ℕ_discrete, ltb, leb, ◌==◌, if◌then◌else◌, ltb→lt,
  lt→ltb, leb→le, ==_iff, tests, Bool-cases, Option-cases, update, length, get_elem?, get_or, set,
  take, drop, replicate, All, length-append, length-take, take-append, length-set, length-replicate,
  get_elem?-set_self, get_elem?-set_ne, take-of_le,
}
use operating_sys.Base.Outcome.{
  Outcome, done, exited, aborted, fault, out_of_fuel, ◌>>=◌, ◌>>◌, char_at, ℤ, pos, negsuc, minus,
  nonzero, negative, within,
}

abbrev pub iterations : ℕ
iterations = 5

abbrev pub writers_count : ℕ
writers_count = 3

-- The mutex and the events, which are free or signalled where they are true, and the variables.
pub record Shared : Type 0 where
  pub mutex : Bool
  pub can_read : Bool
  pub can_write : Bool
  pub waiting_writers : ℕ
  pub waiting_readers : ℕ
  pub active_readers : ℕ
  pub active_writer : Bool
  pub value : ℕ

-- What a thread does next. For a reader: the test of its loop, the lines of `start_read` in their
-- order, the output, and the lines of `stop_read`. For a writer with `left` rounds to go: the lines
-- of `start_write`, the two accesses of `++value`, and the lines of `stop_write`.
pub data Thread : Type 0 where
  reader_loop : Thread
  reader_announce : Thread
  reader_lock : Thread
  reader_test_writer : Thread
  reader_test_waiting : Thread
  reader_wait : Thread
  reader_join : Thread
  reader_count : Thread
  reader_pass_on : Thread
  reader_unlock : Thread
  reader_print : Thread
  reader_leave : Thread
  reader_test_readers : Thread
  reader_let_write : Thread
  reader_end : Thread
  writer_loop : (left : ℕ) → Thread
  writer_announce : (left : ℕ) → Thread
  writer_test_writer : (left : ℕ) → Thread
  writer_test_readers : (left : ℕ) → Thread
  writer_wait : (left : ℕ) → Thread
  writer_claim : (left : ℕ) → Thread
  writer_count : (left : ℕ) → Thread
  writer_reset : (left : ℕ) → Thread
  writer_load : (left : ℕ) → Thread
  writer_store : (seen left : ℕ) → Thread
  writer_give_up : (left : ℕ) → Thread
  writer_test_waiting : (left : ℕ) → Thread
  writer_let_read : (left : ℕ) → Thread
  writer_let_write : (left : ℕ) → Thread
  writer_end : Thread

abbrev pub either : Bool → Thread → Thread → Thread
either b t e = if b then t else e

-- `can_read` resets itself when a thread passes; `can_write` does not.
pub data Move (m : Shared) : Thread → Shared → Thread → Type 0 where
  r_loop :
      Move m reader_loop m
        (either (ltb m.value (writers_count * iterations)) reader_announce reader_end)
  r_announce :
      Move m reader_announce (record m { waiting_readers = m.waiting_readers + 1 }) reader_lock
  r_lock : m.mutex ≡ true → Move m reader_lock (record m { mutex = false }) reader_test_writer
  r_test_writer :
      Move m reader_test_writer m (either m.active_writer reader_wait reader_test_waiting)
  r_test_waiting :
      Move m reader_test_waiting m (either (m.waiting_writers == 0) reader_join reader_wait)
  r_wait : m.can_read ≡ true → Move m reader_wait (record m { can_read = false }) reader_join
  r_join : Move m reader_join (record m { waiting_readers = m.waiting_readers - 1 }) reader_count
  r_count : Move m reader_count (record m { active_readers = m.active_readers + 1 }) reader_pass_on
  r_pass_on : Move m reader_pass_on (record m { can_read = true }) reader_unlock
  r_unlock : Move m reader_unlock (record m { mutex = true }) reader_print
  r_print : Move m reader_print m reader_leave
  r_leave :
      Move m reader_leave (record m { active_readers = m.active_readers - 1 }) reader_test_readers
  r_test_readers :
      Move m reader_test_readers m (either (m.waiting_readers == 0) reader_let_write reader_loop)
  r_let_write : Move m reader_let_write (record m { can_write = true }) reader_loop
  w_loop_end : Move m (writer_loop 0) m writer_end
  w_loop : {l : ℕ} → Move m (writer_loop (suc l)) m (writer_announce l)
  w_announce :
      {l : ℕ}
      → Move m
          (writer_announce l)
          (record m { waiting_writers = m.waiting_writers + 1 })
          (writer_test_writer l)
  w_test_writer :
      {l : ℕ}
      → Move m
          (writer_test_writer l)
          m
          (either m.active_writer (writer_wait l) (writer_test_readers l))
  w_test_readers :
      {l : ℕ}
      → Move m
          (writer_test_readers l)
          m
          (either (ltb 0 m.active_readers) (writer_wait l) (writer_claim l))
  w_wait : {l : ℕ} → m.can_write ≡ true → Move m (writer_wait l) m (writer_claim l)
  w_claim : {l : ℕ} → Move m (writer_claim l) (record m { active_writer = true }) (writer_count l)
  w_count :
      {l : ℕ}
      → Move m
          (writer_count l)
          (record m { waiting_writers = m.waiting_writers - 1 })
          (writer_reset l)
  w_reset : {l : ℕ} → Move m (writer_reset l) (record m { can_write = false }) (writer_load l)
  w_load : {l : ℕ} → Move m (writer_load l) m (writer_store m.value l)
  w_store : {v l : ℕ} → Move m (writer_store v l) (record m { value = v + 1 }) (writer_give_up l)
  w_give_up :
      {l : ℕ}
      → Move m (writer_give_up l) (record m { active_writer = false }) (writer_test_waiting l)
  w_test_waiting :
      {l : ℕ}
      → Move m
          (writer_test_waiting l)
          m
          (either (m.waiting_readers == 0) (writer_let_write l) (writer_let_read l))
  w_let_read : {l : ℕ} → Move m (writer_let_read l) (record m { can_read = true }) (writer_loop l)
  w_let_write :
      {l : ℕ} → Move m (writer_let_write l) (record m { can_write = true }) (writer_loop l)

pub record System : Type 0 where
  pub shared : Shared
  pub thread : ℕ → Thread

-- Any of the first `n` threads may move.
pub data Step (n : ℕ) (s : System) : System → Type 0 where
  pick :
      (i : ℕ) {m : Shared} {t : Thread}
      → i < n
      → Move s.shared (s.thread i) m t
      → Step n s (record { shared = m; thread = update s.thread i t })

-- The objects as `main` creates them: the mutex free, both events signalled. The writers come
-- first.
abbrev pub initial : System
initial = record {
  shared = record {
    mutex = true;
    can_read = true;
    can_write = true;
    waiting_writers = 0;
    waiting_readers = 0;
    active_readers = 0;
    active_writer = false;
    value = 0;
  };
  thread = λ i. if ltb i writers_count then writer_loop iterations else reader_loop;
}

pub data Reach (n : ℕ) : System → Type 0 where
  start : Reach n initial
  later : {s t : System} → Reach n s → Step n s t → Reach n t

-- ===== src/Monitor/Counters.antt =====
-- The counters and the mutex of os_01/lab_06/main.c, in every order of steps.
use operating_sys.Base.{ℕ, ◌+◌, ◌≤◌, ◌<◌, ◌≡◌, sym, Bool, arith, if◌then◌else◌, update}
use operating_sys.Base.Family.{sum_over, sum_over-update, sum_over_zero, le-sum_over}
use operating_sys.Monitor.{
  Shared, Thread, reader_lock, reader_test_writer, reader_test_waiting, reader_wait, reader_join,
  reader_count, reader_pass_on, reader_unlock, reader_print, reader_leave, writer_test_writer,
  writer_test_readers, writer_wait, writer_claim, writer_count, Move, r_loop, r_announce, r_lock,
  r_test_writer, r_test_waiting, r_wait, r_join, r_count, r_pass_on, r_unlock, r_print, r_leave,
  r_test_readers, r_let_write, w_loop_end, w_loop, w_announce, w_test_writer, w_test_readers,
  w_wait, w_claim, w_count, w_reset, w_load, w_store, w_give_up, w_test_waiting, w_let_read,
  w_let_write, System, Step, pick, initial, Reach, start, later,
}

-- a reader that has announced itself and has not joined
abbrev pub waits_to_read : Thread → ℕ
waits_to_read reader_lock = 1
waits_to_read reader_test_writer = 1
waits_to_read reader_test_waiting = 1
waits_to_read reader_wait = 1
waits_to_read reader_join = 1
waits_to_read _ = 0

-- a reader that has been counted and has not left
abbrev pub reads : Thread → ℕ
reads reader_pass_on = 1
reads reader_unlock = 1
reads reader_print = 1
reads reader_leave = 1
reads _ = 0

-- a writer that has announced itself and is not counted as writing
abbrev pub waits_to_write : Thread → ℕ
waits_to_write (writer_test_writer _) = 1
waits_to_write (writer_test_readers _) = 1
waits_to_write (writer_wait _) = 1
waits_to_write (writer_claim _) = 1
waits_to_write (writer_count _) = 1
waits_to_write _ = 0

-- a reader that holds the mutex
abbrev pub holds : Thread → ℕ
holds reader_test_writer = 1
holds reader_test_waiting = 1
holds reader_wait = 1
holds reader_join = 1
holds reader_count = 1
holds reader_pass_on = 1
holds reader_unlock = 1
holds _ = 0

abbrev pub free : Bool → ℕ
free b = if b then 1 else 0

pub record Inv (n : ℕ) (m : Shared) (th : ℕ → Thread) : Type 0 where
  pub waiting : m.waiting_readers ≡ sum_over waits_to_read n th
  pub active : m.active_readers ≡ sum_over reads n th
  pub writers : m.waiting_writers ≡ sum_over waits_to_write n th
  pub mutex : free m.mutex + sum_over holds n th ≡ 1

-- The sums after thread `i` has gone to `t`, with what it was part of before.
record Mover (n i : ℕ) (th : ℕ → Thread) (p q : Thread) : Type 0 where
  waiting :
      sum_over waits_to_read n (update th i q) + waits_to_read p
      ≡ sum_over waits_to_read n th + waits_to_read q
  active : sum_over reads n (update th i q) + reads p ≡ sum_over reads n th + reads q
  writers :
      sum_over waits_to_write n (update th i q) + waits_to_write p
      ≡ sum_over waits_to_write n th + waits_to_write q
  held : sum_over holds n (update th i q) + holds p ≡ sum_over holds n th + holds q
  was_waiting : waits_to_read p ≤ sum_over waits_to_read n th
  was_active : reads p ≤ sum_over reads n th
  was_writer : waits_to_write p ≤ sum_over waits_to_write n th
  was_held : holds p ≤ sum_over holds n th

mover : (n i : ℕ) (th : ℕ → Thread) (q : Thread) → i < n → Mover n i th (th i) q
mover n i th q below = record {
  waiting = sum_over-update waits_to_read n i th q below;
  active = sum_over-update reads n i th q below;
  writers = sum_over-update waits_to_write n i th q below;
  held = sum_over-update holds n i th q below;
  was_waiting = le-sum_over waits_to_read n i th below;
  was_active = le-sum_over reads n i th below;
  was_writer = le-sum_over waits_to_write n i th below;
  was_held = le-sum_over holds n i th below;
}

Move-Inv :
    {n i : ℕ} {m m' : Shared} {th : ℕ → Thread} {p q : Thread}
    → Move m p m' q
    → Mover n i th p q
    → Inv n m th
    → Inv n m' (update th i q)
Move-Inv {m} r_loop v inv = ground (arith, inv, v)
Move-Inv r_announce v inv = ground (arith, inv, v)
Move-Inv (r_lock e) v inv = ground (arith, inv, v)
Move-Inv {m} r_test_writer v inv = ground (arith, inv, v)
Move-Inv r_test_waiting v inv = ground (arith, inv, v)
Move-Inv (r_wait e) v inv = ground (arith, inv, v)
Move-Inv r_join v inv = ground (arith, inv, v)
Move-Inv r_count v inv = ground (arith, inv, v)
Move-Inv r_pass_on v inv = ground (arith, inv, v)
Move-Inv r_unlock v inv = ground (arith, inv, v)
Move-Inv r_print v inv = ground (arith, inv, v)
Move-Inv r_leave v inv = ground (arith, inv, v)
Move-Inv r_test_readers v inv = ground (arith, inv, v)
Move-Inv r_let_write v inv = ground (arith, inv, v)
Move-Inv w_loop_end v inv = ground (arith, inv, v)
Move-Inv w_loop v inv = ground (arith, inv, v)
Move-Inv w_announce v inv = ground (arith, inv, v)
Move-Inv w_test_writer v inv = ground (arith, inv, v)
Move-Inv w_test_readers v inv = ground (arith, inv, v)
Move-Inv (w_wait e) v inv = ground (arith, inv, v)
Move-Inv w_claim v inv = ground (arith, inv, v)
Move-Inv w_count v inv = ground (arith, inv, v)
Move-Inv w_reset v inv = ground (arith, inv, v)
Move-Inv w_load v inv = ground (arith, inv, v)
Move-Inv w_store v inv = ground (arith, inv, v)
Move-Inv w_give_up v inv = ground (arith, inv, v)
Move-Inv w_test_waiting v inv = ground (arith, inv, v)
Move-Inv w_let_read v inv = ground (arith, inv, v)
Move-Inv w_let_write v inv = ground (arith, inv, v)

Step-Inv : {n : ℕ} {s t : System} → Step n s t → Inv n s.shared s.thread → Inv n t.shared t.thread
Step-Inv {n} {s} (pick i {t = t} below mv) inv = Move-Inv mv (mover n i s.thread t below) inv

initial-Inv : (n : ℕ) → Inv n initial.shared initial.thread
initial-Inv n = record {
  waiting = sym (sum_over_zero waits_to_read n _ (λ i. ground arith));
  active = sym (sum_over_zero reads n _ (λ i. ground arith));
  writers = sym (sum_over_zero waits_to_write n _ (λ i. ground arith));
  mutex = omega (arith, sum_over_zero holds n initial.thread (λ i. ground arith));
}

Reach-Inv : {n : ℕ} {s : System} → Reach n s → Inv n s.shared s.thread
Reach-Inv {n} start = initial-Inv n
Reach-Inv (later r st) = Step-Inv st (Reach-Inv r)

-- In whatever order the threads move, however many they are: `waiting_readers` is the number of
-- readers between their announcement and `active_readers`, which is the number of those that have
-- been counted and have not left; `waiting_writers` is the number of writers that have announced
-- themselves and are not yet past their own decrement; and one reader at most is between its lock
-- and its unlock, none exactly if the mutex is free.
pub counters_exact :
    {n : ℕ} {s : System}
    → Reach n s
    → (s.shared.waiting_readers ≡ sum_over waits_to_read n s.thread)
      × (s.shared.active_readers ≡ sum_over reads n s.thread)
      × (s.shared.waiting_writers ≡ sum_over waits_to_write n s.thread)
      × (sum_over holds n s.thread ≡ (if s.shared.mutex then 0 else 1))
counters_exact r =
    let inv = Reach-Inv r in (inv.waiting, inv.active, inv.writers, ground (arith, inv.mutex))

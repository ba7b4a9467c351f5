-- ===== src/Semaphore/ReadWrite/Invariant.antt =====
-- What the four semaphores count, in every state that the program reaches.
use operating_sys.Base.{
  ℕ, ◌+◌, ◌%◌, ◌≤◌, ◌<◌, ◌≡◌, refl, sym, ◌≢◌, ◌⊎◌, inl, some, arith, ℕ_discrete, update, take,
}
use operating_sys.Base.Family.{
  sum_over, sum_over-update, sum_over_zero, le-sum_over, add-le-sum_over,
}
use operating_sys.Semaphore.{Sems, semop}
use operating_sys.Semaphore.ReadWrite.{
  int_values, start_read, stop_read, start_write, stop_write, Process, reader_in, writer_in,
  writer_read, writer_wrote, System, Move, enter_read, leave_read, enter_write, read_number,
  write_number, leave_write, Step, pick, initial, Reach, start, later,
}

-- a process that reads, and one that is between `start_write` and `stop_write`
abbrev pub reads : Process → ℕ
reads reader_in = 1
reads _ = 0

abbrev pub writes_now : Process → ℕ
writes_now writer_in = 1
writes_now (writer_read _) = 1
writes_now writer_wrote = 1
writes_now _ = 0

-- What a writer has read is still the shared number.
abbrev pub IsCurrent : ℕ → Process → Type 0
IsCurrent m (writer_read v) = v ≡ m
IsCurrent m _ = Unit

pub record Inv (n : ℕ) (s : System) : Type 0 where
  pub readers : s.sems 0 ≡ sum_over reads n s.process
  pub writers : s.sems 1 ≡ sum_over writes_now n s.process
  pub binary : s.sems 2 + s.sems 1 ≡ 1
  pub waiting : s.sems 3 ≡ 0
  pub apart : s.sems 1 ≡ 0 ⊎ s.sems 0 ≡ 0
  pub counted : s.shm ≡ s.writes % int_values
  pub current : (i : ℕ) → i < n → IsCurrent s.shm (s.process i)

-- What each array of operations waits for, and what it makes of the four values.
module _ (s t : Sems) where
  granted_start_read :
      semop (take 3 start_read) s ≡ some t
      → (s 3 ≡ 0) × (s 1 ≡ 0) × (t 0 ≡ s 0 + 1) × (t 1 ≡ s 1) × (t 2 ≡ s 2) × (t 3 ≡ s 3)
  unfolding semop
  granted_start_read h = ground arith

  granted_start_write :
      semop (take 5 start_write) s ≡ some t
      → (s 0 ≡ 0) × (0 < s 2) × (t 0 ≡ s 0) × (t 1 ≡ s 1 + 1) × (t 2 + 1 ≡ s 2) × (t 3 ≡ s 3)
  unfolding semop
  granted_start_write h = ground arith

  granted_stop_read :
      semop (take 1 stop_read) s ≡ some t
      → (t 0 + 1 ≡ s 0) × (t 1 ≡ s 1) × (t 2 ≡ s 2) × (t 3 ≡ s 3)
  unfolding semop
  granted_stop_read h = ground arith

  granted_stop_write :
      semop (take 2 stop_write) s ≡ some t
      → (t 0 ≡ s 0) × (t 1 + 1 ≡ s 1) × (t 2 ≡ s 2 + 1) × (t 3 ≡ s 3)
  unfolding semop
  granted_stop_write h = ground arith

-- The sums after process `i` has gone from `p` to `q`.
record Mover (n i : ℕ) (s : System) (p q : Process) : Type 0 where
  readers : sum_over reads n (update s.process i q) + reads p ≡ sum_over reads n s.process + reads q
  writers :
      sum_over writes_now n (update s.process i q) + writes_now p
      ≡ sum_over writes_now n s.process + writes_now q
  was_reader : reads p ≤ sum_over reads n s.process
  was_writer : writes_now p ≤ sum_over writes_now n s.process

mover : (n i : ℕ) (s : System) (q : Process) → i < n → Mover n i s (s.process i) q
mover n i s q below = record {
  readers = sum_over-update reads n i s.process q below;
  writers = sum_over-update writes_now n i s.process q below;
  was_reader = le-sum_over reads n i s.process below;
  was_writer = le-sum_over writes_now n i s.process below;
}

module _ {n : ℕ} {s : System} (inv : Inv n s) (i : ℕ) where
  -- all of the invariant but what the writers have read
  Move-counts :
      {t : Sems} {m w : ℕ} {p q : Process}
      → Move s p t m w q
      → Mover n i s p q
      → IsCurrent s.shm p
      → (t 0 ≡ sum_over reads n (update s.process i q))
        × (t 1 ≡ sum_over writes_now n (update s.process i q))
        × (t 2 + t 1 ≡ 1)
        × (t 3 ≡ 0)
        × (t 1 ≡ 0 ⊎ t 0 ≡ 0)
        × (m ≡ w % int_values)
  Move-counts (enter_read {t} e) f c = ground (arith, inv, granted_start_read s.sems t e)
  Move-counts (leave_read {t} e) f c = ground (arith, inv, granted_stop_read s.sems t e)
  Move-counts (enter_write {t} e) f c = ground (arith, inv, granted_start_write s.sems t e)
  Move-counts read_number f c = ground (arith, inv)
  Move-counts write_number f c = ground (arith, inv)
  Move-counts (leave_write {t} e) f c = ground (arith, inv, granted_stop_write s.sems t e)

  -- While process `i` writes, no other does.
  others_out :
      (j : ℕ) → i < n → j < n → i ≢ j → writes_now (s.process i) + writes_now (s.process j) ≤ 1
  others_out j bi bj ne =
      omega (arith, inv.writers, inv.binary, add-le-sum_over writes_now n i j s.process bi bj ne)

  same_number :
      {t : Sems} {m w : ℕ} {p q : Process}
      → Move s p t m w q
      → p ≡ s.process i
      → i < n
      → (j : ℕ) → j < n
      → IsCurrent m (update s.process i q j)
  same_number (enter_read {t} e) pe bi j bj = ground (arith, inv.current j bj)
  same_number (leave_read {t} e) pe bi j bj = ground (arith, inv.current j bj)
  same_number (enter_write {t} e) pe bi j bj = ground (arith, inv.current j bj)
  same_number read_number pe bi j bj = ground (arith, inv.current j bj)
  same_number write_number pe bi j bj = elim (ℕ_discrete i j) [
    | yes same ↦ ground arith
    | no other ↦ ground (arith, others_out j bi bj other, inv.current j bj)
  ]
  same_number (leave_write {t} e) pe bi j bj = ground (arith, inv.current j bj)

-- Every step keeps the invariant.
pub Step-Inv : {n : ℕ} {s t : System} → Step n s t → Inv n s → Inv n t
Step-Inv {n} {s} (pick i {p} below mv) inv =
    let counts = Move-counts inv i mv (mover n i s p below) (inv.current i below) in
    record {
      readers = counts.0;
      writers = counts.1;
      binary = counts.2;
      waiting = counts.3;
      apart = counts.4;
      counted = counts.5;
      current = same_number inv i mv refl below;
    }

initial-Inv : (n writers : ℕ) → Inv n (initial writers)
initial-Inv n writers = record {
  readers = sym (sum_over_zero reads n _ (λ i. ground arith));
  writers = sym (sum_over_zero writes_now n _ (λ i. ground arith));
  binary = refl;
  waiting = refl;
  apart = inl refl;
  counted = refl;
  current = λ i below. ground arith;
}

-- What the semaphores count holds in every state that the program reaches, for any numbers of
-- writers and of processes: semaphore 0 counts the readers that read, semaphore 1 the writers
-- that write, semaphore 2 is the complement of semaphore 1, semaphore 3 is 0 between any two
-- calls, not both of the first two are positive, and the shared number counts the writes, up to
-- the wrap of its 32 bits.
pub Reach-Inv : {n writers : ℕ} {s : System} → Reach n writers s → Inv n s
Reach-Inv {n} {writers} start = initial-Inv n writers
Reach-Inv (later r st) = Step-Inv st (Reach-Inv r)

-- ===== src/Semaphore/ReadWrite/Safety.antt =====
-- What os_01/lab_05/02.c promises its processes.
use operating_sys.Base.{ℕ, ◌+◌, ◌-◌, ◌≤◌, ◌<◌, ◌≡◌, ◌≢◌, some, arith, ℕ_discrete, update, take}
use operating_sys.Base.Family.{sum_over, le-sum_over, add-le-sum_over, find_positive}
use operating_sys.Semaphore.{Sems, semop}
use operating_sys.Semaphore.ReadWrite.{
  int_max, start_read, Process, reader_out, reader_in, writer_out, writer_in, writer_read,
  writer_wrote, System, Move, enter_read, leave_read, enter_write, read_number, write_number,
  leave_write, Step, pick, Reach,
}
use operating_sys.Semaphore.ReadWrite.Invariant.{reads, writes_now, Reach-Inv}

-- While a process is between `start_write` and `stop_write`, no other process is, and none
-- reads.
pub write_exclusion :
    {n writers : ℕ} {s : System}
    → Reach n writers s
    → (i j : ℕ) → i < n
    → j < n
    → i ≢ j
    → writes_now (s.process i) ≡ 1
    → (writes_now (s.process j) ≡ 0) × (reads (s.process j) ≡ 0)
write_exclusion {n} {s} r i j bi bj ne e =
    let inv = Reach-Inv r in
    (
      omega
          (arith, e, inv.writers, inv.binary, add-le-sum_over writes_now n i j s.process bi bj ne),
      omega (
        arith,
        e,
        inv.apart,
        inv.writers,
        inv.readers,
        le-sum_over writes_now n i s.process bi,
        le-sum_over reads n j s.process bj,
      ),
    )

-- No increment is lost: as long as the writers have not written more often than the greatest int,
-- the shared number is the number of writes in every reachable state.
pub no_lost_write :
    {n writers : ℕ} {s : System} → Reach n writers s → s.writes ≤ int_max → s.shm ≡ s.writes
no_lost_write r small = omega (arith, (Reach-Inv r).counted)

-- A writer that waits holds no reader back, although semaphore 3 is there to count such writers:
-- in every reachable state in which no writer writes, `start_read` proceeds at once.
pub start_read_proceeds :
    {n writers : ℕ} {s : System}
    → Reach n writers s
    → sum_over writes_now n s.process ≡ 0
    → (t : Sems) × (semop (take 3 start_read) s.sems ≡ some t)
unfolding semop
start_read_proceeds {s} r idle =
    let inv = Reach-Inv r in
    (update s.sems 0 (s.sems 0 + 1), ground (arith, inv.waiting, inv.writers, idle))

-- A move of a process that stands at `p`.
abbrev Moves : System → Process → Type 0
Moves s p = (t : Sems) × (m : ℕ) × (w : ℕ) × (q : Process) × Move s p t m w q

-- A process inside its section moves on, whatever the others do.
inside_proceeds :
    (s : System) (p : Process)
    → reads p ≤ s.sems 0
    → writes_now p ≤ s.sems 1
    → 0 < reads p + writes_now p
    → Moves s p
unfolding semop
inside_proceeds s reader_out r w inside = absurd (omega arith)
inside_proceeds s reader_in r w inside =
    (update s.sems 0 (s.sems 0 - 1), _, _, _, leave_read (ground arith))
inside_proceeds s writer_out r w inside = absurd (omega arith)
inside_proceeds s writer_in r w inside = (_, _, _, _, read_number)
inside_proceeds s (writer_read v) r w inside = (_, _, _, _, write_number)
inside_proceeds s writer_wrote r w inside =
    (update (update s.sems 1 (s.sems 1 - 1)) 2 (s.sems 2 + 1), _, _, _, leave_write (ground arith))

-- When no process is inside, every process outside may enter.
outside_proceeds :
    (s : System) (p : Process)
    → reads p + writes_now p ≡ 0
    → s.sems 0 ≡ 0
    → s.sems 1 ≡ 0
    → s.sems 2 ≡ 1
    → s.sems 3 ≡ 0
    → Moves s p
unfolding semop
outside_proceeds s reader_out outside a b c d =
    (update s.sems 0 (s.sems 0 + 1), _, _, _, enter_read (ground arith))
outside_proceeds s writer_out outside a b c d = (
  update (update (update (update s.sems 3 (s.sems 3 + 1)) 2 (s.sems 2 - 1)) 1 (s.sems 1 + 1)) 3
      (s.sems 3 + 1 - 1),
  _,
  _,
  _,
  enter_write (ground arith),
)
outside_proceeds s reader_in outside a b c d = absurd (omega arith)
outside_proceeds s writer_in outside a b c d = absurd (omega arith)
outside_proceeds s (writer_read v) outside a b c d = absurd (omega arith)
outside_proceeds s writer_wrote outside a b c d = absurd (omega arith)

pick_any : {n : ℕ} {s : System} (i : ℕ) → i < n → Moves s (s.process i) → (t : System) × Step n s t
pick_any i below (t, m, w, q, mv) = (_, pick i below mv)

-- The semaphores never stop all processes: with at least one process, some process can move in
-- every reachable state.
pub lock_never_stuck :
    {n writers : ℕ} {s : System} → Reach n writers s → 0 < n → (t : System) × Step n s t
lock_never_stuck {n} {s} r some_process =
    let inv = Reach-Inv r in
    elim (ℕ_discrete (sum_over reads n s.process) 0) [
      | no reading ↦
          let (i, below, here) = find_positive reads n s.process (omega arith) in
          pick_any i below (
            inside_proceeds s (s.process i)
              (omega (arith, inv.readers, le-sum_over reads n i s.process below))
              (omega (arith, inv.writers, le-sum_over writes_now n i s.process below))
              (omega arith))
      | yes none_reads ↦ elim (ℕ_discrete (sum_over writes_now n s.process) 0) [
        | no writing ↦
            let (i, below, here) = find_positive writes_now n s.process (omega arith) in
            pick_any i below (
              inside_proceeds s (s.process i)
                (omega (arith, inv.readers, le-sum_over reads n i s.process below))
                (omega (arith, inv.writers, le-sum_over writes_now n i s.process below))
                (omega arith))
        | yes none_writes ↦ pick_any 0 some_process (
            outside_proceeds s (s.process 0)
              (omega (
                arith,
                le-sum_over reads n 0 s.process some_process,
                le-sum_over writes_now n 0 s.process some_process,
              ))
              (omega (arith, inv.readers)) (omega (arith, inv.writers))
              (omega (arith, inv.writers, inv.binary)) inv.waiting)
      ]
    ]

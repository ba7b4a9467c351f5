-- ===== src/Semaphore/ReadWrite/Tests.antt =====
-- A short run of three writers and five readers, and the theorems in its states.
use operating_sys.Base.{◌≡◌, refl, some, arith, take}
use operating_sys.Base.Family.{sum_over}
use operating_sys.Semaphore.{Sems, semop}
use operating_sys.Semaphore.ReadWrite.{
  start_read, System, Step, pick, enter_write, read_number, write_number, leave_write, Reach, start,
  later,
}
use operating_sys.Semaphore.ReadWrite.Invariant.{reads, writes_now, Inv, Reach-Inv}
use operating_sys.Semaphore.ReadWrite.Safety.{
  write_exclusion, no_lost_write, start_read_proceeds, lock_never_stuck,
}

-- writer 1 has entered
entered : (s : System) × Reach 8 3 s × (writes_now (s.process 1) ≡ 1)
unfolding semop
entered = (_, later start (pick 1 (omega arith) (enter_write refl)), refl)

-- writer 1 has written and left
written : (s : System) × Reach 8 3 s × (s.shm ≡ 1) × (sum_over writes_now 8 s.process ≡ 0)
unfolding semop sum_over
written = (
  _,
  later
      (later
        (later (later start (pick 1 (omega arith) (enter_write refl)))
          (pick 1 (omega arith) read_number))
        (pick 1 (omega arith) write_number))
      (pick 1 (omega arith) (leave_write refl)),
  refl,
  refl,
)

Reach-Inv_example : Inv 8 entered.0
Reach-Inv_example = Reach-Inv entered.1

write_exclusion_example : (writes_now (entered.0.process 4) ≡ 0) × (reads (entered.0.process 4) ≡ 0)
write_exclusion_example =
    write_exclusion entered.1 1 4 (omega arith) (omega arith) (omega arith) entered.2

no_lost_write_example : written.0.shm ≡ written.0.writes
unfolding written
no_lost_write_example = no_lost_write written.1 (omega arith)

start_read_proceeds_example : (t : Sems) × (semop (take 3 start_read) written.0.sems ≡ some t)
start_read_proceeds_example = start_read_proceeds written.1 written.3

lock_never_stuck_example : (t : System) × Step 8 entered.0 t
lock_never_stuck_example = lock_never_stuck entered.1 (omega arith)

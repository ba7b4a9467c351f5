-- ===== src/Pipes/Tests.antt =====
-- Runs of the programs of os_01/lab_04/src, and the theorems at concrete inputs.
use operating_sys.Base.{
  ℕ, zero, suc, ◌+◌, ◌≡◌, refl, ◌⊎◌, Bool, true, false, List, [], ◌∷◌, ◌++◌, arith, drop, replicate,
  length-replicate,
}
use operating_sys.Base.Outcome.{Outcome, done, exited, aborted, fault, out_of_fuel, ℤ, pos, negsuc}
use operating_sys.Base.Memory.{store_bytes}
use operating_sys.Pipes.{msg, parent_process, fork_failed, fork_loop, main_02}
use operating_sys.Pipes.Messages.{
  Parent, forking, reading, waiting, returned, System, forks, sends, starts_reading, reads,
  pipe_ends, Reach, start, later,
}
use operating_sys.Pipes.Messages.Received.{received_both}
use operating_sys.Pipes.Messages.Progress.{Goes, never_stuck}

-- the second `fork` fails
abbrev fork_answers : ℕ → ℤ
fork_answers zero = pos 101
fork_answers (suc i) = negsuc 0

abbrev two_children : ℕ → ℤ
two_children i = pos (suc (100 + i))

main_02_fails : main_02 fork_answers (λ i. (negsuc 0, 0)) ≡ (1, parent_process ∷ fork_failed ∷ [])
unfolding fork_loop
main_02_fails = refl

-- The second child alone has got a signal.
abbrev second_only : ℕ → Bool
second_only zero = false
second_only (suc i) = true

abbrev garbage : List ℕ
garbage = replicate 256 63

-- One `read`, where the parent is at one and the array has room.
abbrev read_next :
    {s : System} (r : Reach garbage s) (p : Parent) (bytes : List ℕ)
    → s.parent ≡ p
    → s.pipe ≡ bytes
    → (t : System) × Reach garbage t
read_next {s} r (reading index) (b ∷ bytes) e has = go (store_bytes s.buffer index (b ∷ [])) refl
  where
    go :
        (o : Outcome (List ℕ))
        → store_bytes s.buffer index (b ∷ []) ≡ o
        → (t : System) × Reach garbage t
    go (done after) stored = (_, later r (reads e has stored))
    go (exited n) stored = (_, r)
    go aborted stored = (_, r)
    go fault stored = (_, r)
    go out_of_fuel stored = (_, r)
read_next {s} r (reading index) [] e has = (_, r)
read_next {s} r (forking i) bytes e has = (_, r)
read_next {s} r (waiting i) bytes e has = (_, r)
read_next {s} r (returned code) bytes e has = (_, r)

abbrev read_times : (n : ℕ) → (t : System) × Reach garbage t → (t : System) × Reach garbage t
read_times zero r = r
read_times (suc n) r = read_times n (read_next r.1 r.0.parent r.0.pipe refl refl)

-- Both messages are sent, the second one first, before the parent reads.
abbrev both_sent : (t : System) × Reach garbage t
both_sent = (
  _,
  later
      (later
        (later
          (later (later start (forks {i = 0} refl (omega arith)))
            (forks {i = 1} refl (omega arith)))
          (sends 1 (omega arith) refl))
        (sends 0 (omega arith) refl))
      (starts_reading refl),
)

abbrev all_read : (t : System) × Reach garbage t
unfolding store_bytes
all_read = read_times 21 both_sent

abbrev received_run : (t : System) × Reach garbage t
unfolding store_bytes all_read
received_run = (_, later all_read.1 (pipe_ends {index = 21} refl refl refl refl refl))

received_both_example :
    (text : List ℕ) × ((text ≡ msg 0 ++ msg 1) ⊎ (text ≡ msg 1 ++ msg 0))
    × (received_run.0.buffer ≡ text ++ (63 ∷ 0 ∷ drop 23 garbage))
unfolding received_run
received_both_example = received_both (length-replicate {A = ℕ} 256 63) received_run.1 refl

never_stuck_example : Goes both_sent.0
never_stuck_example = never_stuck (length-replicate {A = ℕ} 256 63) both_sent.1

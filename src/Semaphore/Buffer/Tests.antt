-- ===== src/Semaphore/Buffer/Tests.antt =====
-- A run of the five processes, and the theorems in its states.
use operating_sys.Base.{
  ℕ, zero, suc, ◌+◌, ◌<◌, ◌≡◌, refl, ap, ◌↔◌, inl, inr, Option, none, some, List, [], ◌∷◌, ◌++◌,
  arith, dec_lt, Option-cases, length, replicate,
}
use operating_sys.Base.Family.{sum_over}
use operating_sys.Semaphore.{semop}
use operating_sys.Semaphore.Buffer.{
  slot_count, prod_start, prod_stop, consum_start, consum_stop, Shared, Process, prod_out, prod_in,
  prod_wrote, prod_moved, cons_out, cons_in, cons_read, cons_moved, Move, prod_enter, prod_write,
  prod_advance, prod_leave, cons_enter, cons_take, cons_advance, cons_leave, System, process_count,
  initial, Step, pick, Reach, start, later,
}
use operating_sys.Semaphore.Buffer.Counts.{inside, to_make, to_take, total}
use operating_sys.Semaphore.Buffer.Invariant.{Inv, Reach-Inv}
use operating_sys.Semaphore.Buffer.Safety.{section_exclusion, fifo, all_consumed}
use operating_sys.Semaphore.Buffer.Progress.{buffer_never_stuck}
use operating_sys.Semaphore.Buffer.Segment.{
  InSegment, pos_prod_at, pos_consum_at, slot_at, slot_at-InSegment,
}

-- producer 3 has entered; then it has produced an item; then consumer 0 has been granted it
producing : (s : System) × Reach s × (s.process 3 ≡ prod_in 10 2)
unfolding semop
producing = (_, later start (pick 3 (omega arith) (prod_enter refl)), refl)

consuming : (s : System) × Reach s × (s.process 0 ≡ cons_in 3)
unfolding semop
consuming = (
  _,
  later
      (later
        (later
          (later (later start (pick 3 (omega arith) (prod_enter refl)))
            (pick 3 (omega arith) prod_write))
          (pick 3 (omega arith) prod_advance))
        (pick 3 (omega arith) (prod_leave refl)))
      (pick 0 (omega arith) (cons_enter refl)),
  refl,
)

Reach-Inv_example : Inv producing.0
Reach-Inv_example = Reach-Inv producing.1

section_exclusion_example : inside (producing.0.process 0) ≡ 0
section_exclusion_example =
    section_exclusion producing.1 3 0 (omega arith) (omega arith) (omega arith)
      (ap inside producing.2)

fifo_example :
    (waiting : List ℕ) × (consuming.0.shared.produced ≡ consuming.0.shared.consumed ++ waiting)
fifo_example = fifo consuming.1

initial_works :
    0 < total inside initial.process + total to_make initial.process + total to_take initial.process
unfolding sum_over
initial_works = omega arith

buffer_never_stuck_example : (t : System) × Step initial t
buffer_never_stuck_example = buffer_never_stuck start initial_works

slot_at-InSegment_example :
    (InSegment 4096 (pos_prod_at 4096) × InSegment 4096 (pos_consum_at 4096))
    × (InSegment 4096 (slot_at 4096 8) ↔ (8 < 3))
slot_at-InSegment_example = slot_at-InSegment 4096 8

-- The next step of a process, if it is not held up.
try_move : (m : Shared) (p : Process) → Option ((m' : Shared) × (q : Process) × Move m p m' q)
try_move m (prod_out v zero) = none
try_move m (prod_out v (suc l)) = elim (Option-cases (semop prod_start m.sems)) [
  | inl held ↦ none
  | inr (t, e) ↦ some (_, _, prod_enter e)
]
try_move m (prod_in v l) = some (_, _, prod_write)
try_move m (prod_wrote v l) = some (_, _, prod_advance)
try_move m (prod_moved v l) = elim (Option-cases (semop prod_stop m.sems)) [
  | inl held ↦ none
  | inr (t, e) ↦ some (_, _, prod_leave e)
]
try_move m (cons_out zero) = none
try_move m (cons_out (suc l)) = elim (Option-cases (semop consum_start m.sems)) [
  | inl held ↦ none
  | inr (t, e) ↦ some (_, _, cons_enter e)
]
try_move m (cons_in l) = some (_, _, cons_take)
try_move m (cons_read l) = some (_, _, cons_advance)
try_move m (cons_moved l) = elim (Option-cases (semop consum_stop m.sems)) [
  | inl held ↦ none
  | inr (t, e) ↦ some (_, _, cons_leave e)
]

abbrev Run : Type 0
Run = (s : System) × Reach s

turn : ℕ → Run → Run
unfolding try_move dec_lt
turn i (s, r) = elim (dec_lt i process_count) [
  | no beyond ↦ (s, r)
  | yes below ↦ elim (try_move s.shared (s.process i)) [
    | none ↦ (s, r)
    | some (m, q, mv) ↦ (_, later r (pick i below mv))
  ]
]

turns : List ℕ → Run → Run
turns [] r = r
turns (i ∷ is) r = turns is (turn i r)

-- the producers one after the other, then the consumers
schedule : List ℕ
schedule =
    replicate 12 2 ++ (replicate 12 3 ++ (replicate 12 4 ++ (replicate 16 0 ++ replicate 20 1)))

finished : Run
finished = turns schedule (initial, start)

finished_totals :
    (total inside finished.0.process ≡ 0)
    × (total to_make finished.0.process ≡ 0)
    × (total to_take finished.0.process ≡ 0)
unfolding finished turns turn schedule semop try_move Option-cases dec_lt sum_over
finished_totals = (refl, refl, refl)

-- what the consumers read
finished_order : finished.0.shared.consumed ≡ 0 ∷ 1 ∷ 2 ∷ 10 ∷ 11 ∷ 12 ∷ 100 ∷ 101 ∷ 102 ∷ []
unfolding finished turns turn schedule semop try_move Option-cases dec_lt
finished_order = refl

all_consumed_example :
    (finished.0.shared.consumed ≡ finished.0.shared.produced)
    × (length finished.0.shared.produced ≡ slot_count)
    × (finished.0.shared.sems 0 ≡ 1)
    × (finished.0.shared.sems 1 ≡ slot_count)
    × (finished.0.shared.sems 2 ≡ 0)
all_consumed_example = all_consumed finished.1 finished_totals.0 finished_totals.1 finished_totals.2

-- ===== src/Semaphore/Buffer/Progress.antt =====
-- The processes of os_01/lab_05/01.c are never all stopped before the last item is consumed.
use operating_sys.Base.{
  ℕ, zero, suc, ◌+◌, ◌-◌, ◌<◌, ◌≡◌, refl, ◌⊎◌, inl, inr, arith, ℕ_discrete, update,
}
use operating_sys.Base.Family.{le-sum_over, find_positive}
use operating_sys.Semaphore.{semop}
use operating_sys.Semaphore.Buffer.{
  Shared, Process, prod_out, prod_in, prod_wrote, prod_moved, cons_out, cons_in, cons_read,
  cons_moved, Move, prod_enter, prod_write, prod_advance, prod_leave, cons_enter, cons_take,
  cons_advance, cons_leave, System, process_count, Step, pick, Reach,
}
use operating_sys.Semaphore.Buffer.Counts.{inside, to_make, to_take, total, bounds}
use operating_sys.Semaphore.Buffer.Invariant.{Reach-Inv}

abbrev Moves : Shared → Process → Type 0
Moves m p = (m' : Shared) × (q : Process) × Move m p m' q

inside_proceeds : (m : Shared) (p : Process) → inside p ≡ 1 → Moves m p
unfolding semop
inside_proceeds m (prod_out v l) e = absurd (omega arith)
inside_proceeds m (prod_in v l) e = (_, _, prod_write)
inside_proceeds m (prod_wrote v l) e = (_, _, prod_advance)
inside_proceeds m (prod_moved v l) e = (_, _, prod_leave refl)
inside_proceeds m (cons_out l) e = absurd (omega arith)
inside_proceeds m (cons_in l) e = (_, _, cons_take)
inside_proceeds m (cons_read l) e = (_, _, cons_advance)
inside_proceeds m (cons_moved l) e = (_, _, cons_leave refl)

-- A producer outside with a round left enters if the section is free and a slot is.
producer_proceeds :
    (m : Shared) (p : Process)
    → inside p ≡ 0
    → 0 < to_make p
    → m.sems 0 ≡ 1
    → 0 < m.sems 1
    → Moves m p
unfolding semop
producer_proceeds m (prod_out v zero) e left a b = absurd (omega arith)
producer_proceeds m (prod_out v (suc l)) e left a b = (
  record m { sems = update (update m.sems 1 (m.sems 1 - 1)) 0 (m.sems 0 - 1) },
  _,
  prod_enter (ground arith),
)
producer_proceeds m (prod_in v l) e left a b = absurd (omega arith)
producer_proceeds m (prod_wrote v l) e left a b = absurd (omega arith)
producer_proceeds m (prod_moved v l) e left a b = absurd (omega arith)
producer_proceeds m (cons_out l) e left a b = absurd (omega arith)
producer_proceeds m (cons_in l) e left a b = absurd (omega arith)
producer_proceeds m (cons_read l) e left a b = absurd (omega arith)
producer_proceeds m (cons_moved l) e left a b = absurd (omega arith)

consumer_proceeds :
    (m : Shared) (p : Process)
    → inside p ≡ 0
    → 0 < to_take p
    → m.sems 0 ≡ 1
    → 0 < m.sems 2
    → Moves m p
unfolding semop
consumer_proceeds m (cons_out zero) e left a b = absurd (omega arith)
consumer_proceeds m (cons_out (suc l)) e left a b = (
  record m { sems = update (update m.sems 2 (m.sems 2 - 1)) 0 (m.sems 0 - 1) },
  _,
  cons_enter (ground arith),
)
consumer_proceeds m (cons_in l) e left a b = absurd (omega arith)
consumer_proceeds m (cons_read l) e left a b = absurd (omega arith)
consumer_proceeds m (cons_moved l) e left a b = absurd (omega arith)
consumer_proceeds m (prod_out v l) e left a b = absurd (omega arith)
consumer_proceeds m (prod_in v l) e left a b = absurd (omega arith)
consumer_proceeds m (prod_wrote v l) e left a b = absurd (omega arith)
consumer_proceeds m (prod_moved v l) e left a b = absurd (omega arith)

inside_cases : (p : Process) → (inside p ≡ 0) ⊎ (inside p ≡ 1)
inside_cases (prod_out v l) = inl refl
inside_cases (cons_out l) = inl refl
inside_cases p = inr refl

pick_any :
    {s : System} (i : ℕ)
    → i < process_count
    → Moves s.shared (s.process i)
    → (t : System) × Step s t
pick_any i below (m, q, mv) = (_, pick i below mv)

-- In every reachable state in which a process has a round left or is in its section, some process
-- can move: the producers never wait for a slot that no consumer will free, nor the consumers
-- for an item that no producer will write.
pub buffer_never_stuck :
    {s : System}
    → Reach s
    → 0 < total inside s.process + total to_make s.process + total to_take s.process
    → (t : System) × Step s t
buffer_never_stuck {s} r work =
    let c = (Reach-Inv r).counts in
    elim (ℕ_discrete (total inside s.process) 0) [
      | no busy ↦
          let (i, below, here) = find_positive inside process_count s.process (omega arith) in
          pick_any i below (
            inside_proceeds s.shared (s.process i)
              (omega (arith, c.mutex, le-sum_over inside process_count i s.process below)))
      | yes free ↦ elim (ℕ_discrete (total to_make s.process) 0) [
        | no making ↦
            let (i, below, here) = find_positive to_make process_count s.process (omega arith) in
            pick_any i below (
              producer_proceeds s.shared (s.process i)
                (omega (arith, le-sum_over inside process_count i s.process below)) here
                (omega (arith, c.mutex)) (omega (arith, c.slots, c.items, c.made)))
        | yes made ↦
            let (i, below, here) = find_positive to_take process_count s.process (omega arith) in
            pick_any i below (
              consumer_proceeds s.shared (s.process i)
                (omega (arith, le-sum_over inside process_count i s.process below)) here
                (omega (arith, c.mutex))
                (omega (arith, c.items, c.made, c.taken, (bounds s.process).granted)))
      ]
    ]

-- ===== src/Semaphore/Buffer/Safety.antt =====
-- What os_01/lab_05/01.c promises its producers and consumers.
use operating_sys.Base.{
  ℕ, suc, ◌≤◌, ◌<◌, ◌≡◌, refl, ap, ◌≢◌, some, List, [], ◌∷◌, ◌++◌, append-nil, arith, length,
  get_elem?, length-append,
}
use operating_sys.Base.Family.{le-sum_over, add-le-sum_over}
use operating_sys.Semaphore.Buffer.{slot_count, prod_in, cons_in, System, process_count, Reach}
use operating_sys.Semaphore.Buffer.Counts.{
  inside, to_make, to_take, total, starting, settled, granted_item, unread, consumed_behind, bounds,
}
use operating_sys.Semaphore.Buffer.Invariant.{Reach-Inv}

-- Two processes are never between their two calls of `semop` together.
pub section_exclusion :
    {s : System}
    → Reach s
    → (i j : ℕ) → i < process_count
    → j < process_count
    → i ≢ j
    → inside (s.process i) ≡ 1
    → inside (s.process j) ≡ 0
section_exclusion {s} r i j bi bj ne e =
    let c = (Reach-Inv r).counts in
    omega (arith, e, c.mutex, add-le-sum_over inside process_count i j s.process bi bj ne)

-- A producer that is about to write does so at a position within the nine slots, and no item that
-- was written before is overwritten: the position lies behind all of them.
pub produce_in_range :
    {s : System} {v l : ℕ}
    → Reach s
    → (i : ℕ) → i < process_count
    → s.process i ≡ prod_in v l
    → (s.shared.pos_prod < slot_count) × (length s.shared.produced ≡ s.shared.pos_prod)
produce_in_range {s} r i below e =
    let c = (Reach-Inv r).counts in
    (
      omega (arith, c.made, ap to_make e, le-sum_over to_make process_count i s.process below),
      (settled i c below (ap starting e)).all_counted,
    )

-- A consumer that is about to read does so at a position that a producer has filled, and finds
-- there the item that was produced at that place in the order.
pub consume_in_range :
    {s : System} {l : ℕ}
    → Reach s
    → (i : ℕ) → i < process_count
    → s.process i ≡ cons_in l
    → (s.shared.pos_consum < s.shared.pos_prod)
      × (get_elem? s.shared.produced s.shared.pos_consum
          ≡ some (s.shared.buffer s.shared.pos_consum))
consume_in_range {s} r i below e =
    let inv = Reach-Inv r in
    let item = granted_item i inv.counts below (ap unread e) in
    (item, inv.contents.stored s.shared.pos_consum (omega (arith, inv.counts.written)))

-- A list whose places all hold what another list has there is the beginning of the other.
beginning {ℓ} :
    {A : Type ℓ} (xs ys : List A)
    → length xs ≤ length ys
    → ((i : ℕ) → i < length xs → get_elem? xs i ≡ get_elem? ys i)
    → (rest : List A) × (ys ≡ xs ++ rest)
beginning [] ys short same = (ys, refl)
beginning (x ∷ xs) [] short same = absurd (omega arith)
beginning (x ∷ xs) (y ∷ ys) short same =
    let (rest, e) = beginning xs ys (omega arith) (λ i b. same (suc i) (omega arith)) in
    (rest, cc (same 0 (omega arith), e))

nothing_left {ℓ} :
    {A : Type ℓ} (xs ys rest : List A) → ys ≡ xs ++ rest → length xs ≡ length ys → xs ≡ ys
nothing_left xs ys [] e same = cc (e, append-nil xs)
nothing_left xs ys (r ∷ rest) e same =
    absurd (omega (arith, ap length e, length-append xs (r ∷ rest), same))

-- Items are consumed in the order in which they were produced: in every reachable state what was
-- written is what was read, followed by the items that still wait.
pub fifo :
    {s : System} → Reach s → (waiting : List ℕ) × (s.shared.produced ≡ s.shared.consumed ++ waiting)
fifo {s} r =
    let inv = Reach-Inv r in
    beginning s.shared.consumed s.shared.produced (consumed_behind inv.counts) inv.contents.order

-- When no process has a round left and none is in its section, all nine items were produced and
-- consumed, in one order, and the semaphores stand as at the start.
pub all_consumed :
    {s : System}
    → Reach s
    → total inside s.process ≡ 0
    → total to_make s.process ≡ 0
    → total to_take s.process ≡ 0
    → (s.shared.consumed ≡ s.shared.produced)
      × (length s.shared.produced ≡ slot_count)
      × (s.shared.sems 0 ≡ 1)
      × (s.shared.sems 1 ≡ slot_count)
      × (s.shared.sems 2 ≡ 0)
all_consumed {s} r out no_make no_take =
    let inv = Reach-Inv r in
    let b = bounds s.process in
    let c = inv.counts in
    (
      nothing_left s.shared.consumed s.shared.produced (fifo r).0 (fifo r).1
          (omega (arith, c.made, c.taken, c.written, c.seen, b.fresh_starting, b.read_starting)),
      omega (arith, c.made, c.written, b.fresh_starting),
      omega (arith, c.mutex),
      omega (arith, c.slots, c.items, c.made, c.taken),
      omega (arith, c.slots, c.items, c.made, c.taken),
    )

-- ===== src/Semaphore/Buffer/Counts.antt =====
-- What the semaphores and the positions of os_01/lab_05/01.c count.
use operating_sys.Base.{
  length-snoc, ℕ, zero, suc, ◌+◌, ◌≤◌, ◌<◌, ◌≡◌, refl, ◌∙◌, some, List, [], ◌∷◌, ◌++◌, arith, ◌==◌,
  if◌then◌else◌, update, length, get_elem?,
}
use operating_sys.Base.Family.{sum_over, sum_over-update, le-sum_over, sum_over-add-le}
use operating_sys.Semaphore.{Sems, semop}
use operating_sys.Semaphore.Buffer.{
  slot_count, prod_start, prod_stop, consum_start, consum_stop, Shared, Process, prod_out, prod_in,
  prod_wrote, prod_moved, cons_out, cons_in, cons_read, cons_moved, Move, prod_enter, prod_write,
  prod_advance, prod_leave, cons_enter, cons_take, cons_advance, cons_leave, process_count,
}

-- between the two calls of `semop`
abbrev pub inside : Process → ℕ
inside (prod_out _ _) = 0
inside (cons_out _) = 0
inside _ = 1

-- a producer whose item is in the buffer and counted in no position; one whose item is counted and
-- not yet signalled
abbrev pub fresh : Process → ℕ
fresh (prod_wrote _ _) = 1
fresh _ = 0

abbrev pub unposted : Process → ℕ
unposted (prod_moved _ _) = 1
unposted _ = 0

-- a consumer that was granted an item and has not moved its position; one that has read it
abbrev pub unread : Process → ℕ
unread (cons_in _) = 1
unread (cons_read _) = 1
unread _ = 0

abbrev pub just_read : Process → ℕ
just_read (cons_read _) = 1
just_read _ = 0

-- the increments of a position that a process will still make
abbrev pub to_make : Process → ℕ
to_make (prod_out _ l) = l
to_make (prod_in _ l) = suc l
to_make (prod_wrote _ l) = suc l
to_make (prod_moved _ l) = l
to_make _ = 0

abbrev pub to_take : Process → ℕ
to_take (cons_out l) = l
to_take (cons_in l) = suc l
to_take (cons_read l) = suc l
to_take (cons_moved l) = l
to_take _ = 0

abbrev pub total : (Process → ℕ) → (ℕ → Process) → ℕ
total w f = sum_over w process_count f

-- what is counted
pub record Counts (m : Shared) (f : ℕ → Process) : Type 0 where
  pub mutex : m.sems 0 + total inside f ≡ 1
  pub slots : m.sems 1 + m.sems 2 + total inside f ≡ slot_count
  pub items : m.sems 2 + m.pos_consum + total unread f + total unposted f ≡ m.pos_prod
  pub made : m.pos_prod + total to_make f ≡ slot_count
  pub taken : m.pos_consum + total to_take f ≡ slot_count
  pub written : length m.produced ≡ m.pos_prod + total fresh f
  pub seen : length m.consumed ≡ m.pos_consum + total just_read f

-- what the buffer holds, and what was read from it
pub record Contents (m : Shared) : Type 0 where
  pub stored : (i : ℕ) → i < length m.produced → get_elem? m.produced i ≡ some (m.buffer i)
  pub order : (i : ℕ) → i < length m.consumed → get_elem? m.consumed i ≡ get_elem? m.produced i

module _ (s t : Sems) where
  granted_prod_start : semop prod_start s ≡ some t → (t 0 + 1 ≡ s 0) × (t 1 + 1 ≡ s 1) × (t 2 ≡ s 2)
  unfolding semop
  granted_prod_start h = ground arith

  granted_prod_stop : semop prod_stop s ≡ some t → (t 0 ≡ s 0 + 1) × (t 1 ≡ s 1) × (t 2 ≡ s 2 + 1)
  unfolding semop
  granted_prod_stop h = ground arith

  granted_consum_start :
      semop consum_start s ≡ some t → (t 0 + 1 ≡ s 0) × (t 1 ≡ s 1) × (t 2 + 1 ≡ s 2)
  unfolding semop
  granted_consum_start h = ground arith

  granted_consum_stop :
      semop consum_stop s ≡ some t → (t 0 ≡ s 0 + 1) × (t 1 ≡ s 1 + 1) × (t 2 ≡ s 2)
  unfolding semop
  granted_consum_stop h = ground arith

-- The sums after process `i` has gone from `p` to `q`.
abbrev pub Shift : (Process → ℕ) → (i : ℕ) → (ℕ → Process) → Process → Process → Type 0
Shift w i f p q = total w (update f i q) + w p ≡ total w f + w q

pub record Mover (i : ℕ) (f : ℕ → Process) (p q : Process) : Type 0 where
  inside_shift : Shift inside i f p q
  fresh_shift : Shift fresh i f p q
  unposted_shift : Shift unposted i f p q
  unread_shift : Shift unread i f p q
  read_shift : Shift just_read i f p q
  make_shift : Shift to_make i f p q
  take_shift : Shift to_take i f p q

pub mover : (i : ℕ) (f : ℕ → Process) (q : Process) → i < process_count → Mover i f (f i) q
mover i f q below = record {
  inside_shift = sum_over-update inside process_count i f q below;
  fresh_shift = sum_over-update fresh process_count i f q below;
  unposted_shift = sum_over-update unposted process_count i f q below;
  unread_shift = sum_over-update unread process_count i f q below;
  read_shift = sum_over-update just_read process_count i f q below;
  make_shift = sum_over-update to_make process_count i f q below;
  take_shift = sum_over-update to_take process_count i f q below;
}

pub Move-Counts :
    {m m' : Shared} {f : ℕ → Process} {p q : Process} (i : ℕ)
    → Move m p m' q
    → Counts m f
    → Mover i f p q
    → Counts m' (update f i q)
Move-Counts {m} i (prod_enter {t} e) c d = omega (arith, granted_prod_start m.sems t e)
Move-Counts {m} i (prod_write {v}) c d = omega (arith, length-snoc m.produced v)
Move-Counts i prod_advance c d = omega arith
Move-Counts {m} i (prod_leave {t} e) c d = omega (arith, granted_prod_stop m.sems t e)
Move-Counts {m} i (cons_enter {t} e) c d = omega (arith, granted_consum_start m.sems t e)
Move-Counts {m} i cons_take c d = omega (arith, length-snoc m.consumed (m.buffer m.pos_consum))
Move-Counts i cons_advance c d = omega arith
Move-Counts {m} i (cons_leave {t} e) c d = omega (arith, granted_consum_stop m.sems t e)

-- A list with one more element, at the old places and at the new one.
pub get_elem?-snoc {ℓ} :
    {A : Type ℓ} (xs : List A) (x : A) (i : ℕ)
    → get_elem? (xs ++ x ∷ []) i ≡ (if i == length xs then some x else get_elem? xs i)
get_elem?-snoc [] x zero = refl
get_elem?-snoc [] x (suc i) = ground arith
get_elem?-snoc (y ∷ xs) x zero = ground arith
get_elem?-snoc (y ∷ xs) x (suc i) = get_elem?-snoc xs x i ∙ ground arith

-- A process that has entered its section and done nothing there.
abbrev pub starting : Process → ℕ
starting (prod_in _ _) = 1
starting (cons_in _) = 1
starting _ = 0

-- How the sums bound one another: the section holds one process.
pub record Bounds (f : ℕ → Process) : Type 0 where
  pub fresh_starting : total fresh f + total starting f ≤ total inside f
  pub read_starting : total just_read f + total starting f ≤ total inside f
  pub granted : total unread f + total unposted f ≤ total inside f
  pub read_unposted : total just_read f + total unposted f ≤ total unread f + total unposted f

pub bounds : (f : ℕ → Process) → Bounds f
bounds f = record {
  fresh_starting = sum_over-add-le fresh starting inside (λ p. fresh_le p) process_count f;
  read_starting = sum_over-add-le just_read starting inside (λ p. read_le p) process_count f;
  granted = sum_over-add-le unread unposted inside (λ p. granted_le p) process_count f;
  read_unposted =
      omega (arith, sum_over-add-le just_read (λ _. 0) unread (λ p. unread_le p) process_count f);
}
  where
    fresh_le : (p : Process) → fresh p + starting p ≤ inside p
    fresh_le p = ground arith

    read_le : (p : Process) → just_read p + starting p ≤ inside p
    read_le p = ground arith

    granted_le : (p : Process) → unread p + unposted p ≤ inside p
    granted_le p = ground arith

    unread_le : (p : Process) → just_read p + 0 ≤ unread p
    unread_le p = ground arith

-- When process `i` starts, every item that was written is counted, and every item that was read.
pub record Settled (m : Shared) : Type 0 where
  pub all_counted : length m.produced ≡ m.pos_prod
  pub all_read : length m.consumed ≡ m.pos_consum

pub settled :
    {m : Shared} {f : ℕ → Process} (i : ℕ)
    → Counts m f
    → i < process_count
    → starting (f i) ≡ 1
    → Settled m
settled {f} i c below e = omega (arith, e, bounds f, le-sum_over starting process_count i f below)

-- More items were written than read, and one more than read if a consumer starts.
pub consumed_behind :
    {m : Shared} {f : ℕ → Process} → Counts m f → length m.consumed ≤ length m.produced
consumed_behind {f} c = omega (arith, bounds f)

pub granted_item :
    {m : Shared} {f : ℕ → Process} (i : ℕ)
    → Counts m f
    → i < process_count
    → unread (f i) ≡ 1
    → m.pos_consum < m.pos_prod
granted_item {f} i c below e = omega (arith, e, le-sum_over unread process_count i f below)

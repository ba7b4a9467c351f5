-- ===== src/Tasks.antt =====
-- os_02/lab_03/src/part_01/md.c: the module that prints the list of tasks.
mod Tests
use operating_sys.Base.{
  ℕ, zero, suc, ◌+◌, ◌-◌, ◌*◌, ◌/◌, ◌%◌, ◌^◌, ◌≤◌, ◌<◌, ◌≡◌, refl, sym, ap, ◌∙◌, subst, ◌≢◌, ◌↔◌,
  ◌⊎◌, inl, inr, Bool, true, false, not, ◌&&◌, ◌||◌, Option, none, some, List, [], ◌∷◌, ◌++◌, map,
  append_assoc, append-nil, arith, dec_lt, ℕ_discrete, ltb, leb, ◌==◌, if◌then◌else◌, ltb→lt,
  lt→ltb, leb→le, ==_iff, tests, Bool-cases, Option-cases, update, length, get_elem?, get_or, set,
  take, drop, replicate, All, length-append, length-take, take-append, length-set, length-replicate,
  get_elem?-set_self, get_elem?-set_ne, take-of_le,
}
use operating_sys.Base.Outcome.{
  Outcome, done, exited, aborted, fault, out_of_fuel, ◌>>=◌, ◌>>◌, char_at, ℤ, pos, negsuc, minus,
  nonzero, negative, within,
}

-- A task of the kernel; `parent` and `next` point to tasks.
pub record Task : Type 0 where
  pub comm : List ℕ
  pub pid : ℕ
  pub parent : ℕ
  pub next : ℕ

-- A line of the log: the task's name and number, and those of its parent.
pub record Line : Type 0 where
  pub comm : List ℕ
  pub pid : ℕ
  pub parent_comm : List ℕ
  pub parent_pid : ℕ

abbrev pub task_line : (task_at : ℕ → Task) (task : ℕ) → Line
task_line task_at task =
    let t = task_at task in
    let p = task_at t.parent in
    record { comm = t.comm; pid = t.pid; parent_comm = p.comm; parent_pid = p.pid }

-- The `do` loop, with `fuel` rounds: it prints `task` and goes on to the next, until that is
-- `init_task`.
unfoldable pub print_tasks : (task_at : ℕ → Task) (init_task fuel task : ℕ) → Outcome (List Line)
print_tasks task_at init_task zero task = out_of_fuel
print_tasks task_at init_task (suc fuel) task =
    let next = (task_at task).next in
    let later = print_tasks task_at init_task fuel next in
    if next == init_task
    then done (task_line task_at task ∷ [])
    else (do lines ← later; done (task_line task_at task ∷ lines))

-- The load prints all tasks and then the one that runs it, and returns 0.
unfoldable pub md_init : (task_at : ℕ → Task) (init_task current fuel : ℕ) → Outcome (ℕ × List Line)
unfolding print_tasks
md_init task_at init_task current fuel = do
  lines ← print_tasks task_at init_task fuel init_task
  done (0, lines ++ task_line task_at current ∷ [])

-- From `task` on the list of tasks is `others`, and behind it the first task again.
pub data Linked (task_at : ℕ → Task) (init_task : ℕ) : (task : ℕ) → List ℕ → Type 0 where
  closes : {task : ℕ} → (task_at task).next ≡ init_task → Linked task_at init_task task []
  goes_on :
      {task next : ℕ} {others : List ℕ}
      → (task_at task).next ≡ next
      → next ≢ init_task
      → Linked task_at init_task next others
      → Linked task_at init_task task (next ∷ others)

print_tasks-lines :
    (task_at : ℕ → Task) (init_task fuel task : ℕ) (others : List ℕ)
    → Linked task_at init_task task others
    → length others < fuel
    → print_tasks task_at init_task fuel task ≡ done (map (task_line task_at) (task ∷ others))
unfolding print_tasks
print_tasks-lines task_at init_task zero task others linked enough = absurd (omega arith)
print_tasks-lines task_at init_task (suc fuel) task [] (closes e) enough =
    let last : ((task_at task).next == init_task) ≡ true = ground (arith, e) in rw last refl
print_tasks-lines task_at init_task (suc fuel) task (next ∷ others) (goes_on e ne linked) enough =
    let further : ((task_at task).next == init_task) ≡ false = ground (arith, e, ne) in
    let later = print_tasks-lines task_at init_task fuel next others linked (omega arith) in
    rw (further, e, later) refl

-- On a list of tasks that closes at `init_task`: the loop ends, within a round for every task; each
-- task of the list is printed once, in order, and behind them the current one.
pub md_init-tasks :
    (task_at : ℕ → Task) (init_task current fuel : ℕ) (others : List ℕ)
    → Linked task_at init_task init_task others
    → length others < fuel
    → md_init task_at init_task current fuel
      ≡ done (0, map (task_line task_at) (init_task ∷ others) ++ task_line task_at current ∷ [])
unfolding md_init
md_init-tasks task_at init_task current fuel others linked enough =
    rw (print_tasks-lines task_at init_task fuel init_task others linked enough) refl

-- ===== src/Tasks/Tests.antt =====
-- A run of os_02/lab_03/src/part_01/md.c on three tasks.
use operating_sys.Base.{ℕ, zero, suc, ◌≡◌, refl, [], ◌∷◌, ◌++◌, map, arith}
use operating_sys.Base.Outcome.{done}
use operating_sys.Tasks.{Task, task_line, md_init, closes, goes_on, md_init-tasks}

-- Task 0 is `init_task`, and the parent of all.
abbrev three_tasks : ℕ → Task
three_tasks zero = record { comm = b's' ∷ []; pid = 0; parent = 0; next = 2 }
three_tasks (suc zero) = record { comm = b'b' ∷ []; pid = 7; parent = 2; next = 0 }
three_tasks (suc (suc i)) = record { comm = b'i' ∷ []; pid = 1; parent = 0; next = 1 }

md_init_runs :
    md_init three_tasks 0 1 3
    ≡ done (0, map (task_line three_tasks) (0 ∷ 2 ∷ 1 ∷ []) ++ task_line three_tasks 1 ∷ [])
md_init_runs =
    md_init-tasks three_tasks 0 1 3 (2 ∷ 1 ∷ [])
      (goes_on refl (omega arith) (goes_on refl (omega arith) (closes refl))) (omega arith)

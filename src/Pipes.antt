-- ===== src/Pipes.antt =====
-- os_01/lab_04/src: programs that start two children and wait for them. What `fork` and `wait`
-- answer are arguments; a run is that of one process, the parent or a child.
pub mod Forks
pub mod Signals
pub mod Messages
mod Tests
use operating_sys.Base.{
  ℕ, zero, suc, ◌+◌, ◌-◌, ◌*◌, ◌/◌, ◌%◌, ◌^◌, ◌≤◌, ◌<◌, ◌≡◌, refl, sym, ap, ◌∙◌, subst, ◌≢◌, ◌↔◌,
  ◌⊎◌, inl, inr, Bool, true, false, not, ◌&&◌, ◌||◌, Option, none, some, List, [], ◌∷◌, ◌++◌, map,
  append_assoc, append-nil, arith, dec_lt, ℕ_discrete, ltb, leb, ◌==◌, if◌then◌else◌, ltb→lt,
  lt→ltb, leb→le, ==_iff, tests, Bool-cases, Option-cases, update, length, get_elem?, get_or, set,
  take, drop, replicate, All, length-append, length-take, take-append, length-set, length-replicate,
  get_elem?-set_self, get_elem?-set_ne, take-of_le,
}
use operating_sys.Base.Outcome.{
  Outcome, done, exited, aborted, fault, out_of_fuel, ◌>>=◌, ◌>>◌, char_at, ℤ, pos, negsuc, minus,
  nonzero, negative, within,
}
use operating_sys.Base.Texts.{codes}

abbrev pub rep_n : ℕ
rep_n = 2

-- What a process prints. The texts that hold nothing else stand for themselves.
pub data Line : Type 0 where
  parent_process : Line
  child_process : (i : ℕ) → Line
  fork_failed : Line
  exec_failed : Line
  from_parent : Line
  completed : (pid : ℤ) (status : ℕ) → Line
  exit_code : (number code : ℕ) → Line
  child_pid : (i : ℕ) (pid : ℤ) → Line
  sent : (i : ℕ) → Line
  no_signal : Line
  received : (text : List ℕ) → Line

-- How the loop of `fork` ends in a process: with the children's numbers, with a failure, as child
-- `i`.
pub data Forked : Type 0 where
  parent_of : List ℤ → Forked
  failed : Forked
  child : (i : ℕ) → Forked

abbrev pub with_child : ℤ → Forked → Forked
with_child pid (parent_of pids) = parent_of (pid ∷ pids)
with_child pid failed = failed
with_child pid (child i) = child i

-- `n` rounds from `i` on; `fork` answers -1, 0 in the child or the number of the child.
unfoldable pub fork_loop : (forks : ℕ → ℤ) (n i : ℕ) → Forked
fork_loop forks zero i = parent_of []
fork_loop forks (suc n) i =
    let rest = fork_loop forks n (i + 1) in
    if negative (forks i)
    then failed
    else if nonzero (forks i)
    then with_child (forks i) rest
    else child i

-- the macros of sys/wait.h on Linux
abbrev pub exited_normally : ℕ → Bool
exited_normally s = s % 128 == 0

abbrev pub signaled : ℕ → Bool
signaled s = not (s % 128 == 0) && not (s % 128 == 127)

abbrev pub stopped : ℕ → Bool
stopped s = s % 256 == 127

-- the chain of `if`s: the line that tells how child number `i + 1` ended
abbrev pub code_lines : (i ret_val : ℕ) → List Line
code_lines i ret_val =
    if exited_normally ret_val
    then exit_code (i + 1) (ret_val / 256 % 256) ∷ []
    else if signaled ret_val
    then exit_code (i + 1) (ret_val % 128) ∷ []
    else if stopped ret_val
    then exit_code (i + 1) (ret_val / 256 % 256) ∷ []
    else []

-- The loop of `wait`, `n` rounds from `i` on. It looks at `ret_val`, which is 0, and not at the
-- status.
unfoldable pub wait_loop : (waits : ℕ → ℤ × ℕ) (n i : ℕ) → List Line
wait_loop waits zero i = []
wait_loop waits (suc n) i =
    completed (waits i).0 (waits i).1 ∷ (code_lines i 0 ++ wait_loop waits n (i + 1))

abbrev pub pid_lines : (i : ℕ) → List ℤ → List Line
pid_lines i [] = []
pid_lines i (pid ∷ pids) = child_pid i pid ∷ pid_lines (i + 1) pids

-- 01.c
abbrev pub main_01 : (forks : ℕ → ℤ) → ℕ × List Line
main_01 forks = ends (fork_loop forks rep_n 0)
  where
    ends : Forked → ℕ × List Line
    ends failed = (1, parent_process ∷ fork_failed ∷ [])
    ends (child i) = (0, child_process i ∷ [])
    ends (parent_of pids) = (0, parent_process ∷ from_parent ∷ pid_lines 0 pids)

-- 02.c
abbrev pub main_02 : (forks : ℕ → ℤ) (waits : ℕ → ℤ × ℕ) → ℕ × List Line
main_02 forks waits = ends (fork_loop forks rep_n 0)
  where
    ends : Forked → ℕ × List Line
    ends failed = (1, parent_process ∷ fork_failed ∷ [])
    ends (child i) = (0, child_process i ∷ [])
    ends (parent_of pids) = (
      0,
      parent_process ∷ from_parent ∷ (wait_loop waits rep_n 0 ++ (from_parent ∷ pid_lines 0 pids)),
    )

-- 03.c: a child becomes another program, unless `execvp` fails; the parent waits for each child
-- before it starts the next, so `waits` is about what the loop below still finds.
abbrev pub main_03 : (forks : ℕ → ℤ) (waits : ℕ → ℤ × ℕ) → ℕ × List Line
main_03 forks waits = ends (fork_loop forks rep_n 0)
  where
    ends : Forked → ℕ × List Line
    ends failed = (1, parent_process ∷ fork_failed ∷ [])
    ends (child i) = (1, child_process i ∷ exec_failed ∷ [])
    ends (parent_of pids) = (
      0,
      parent_process ∷ from_parent ∷ (wait_loop waits rep_n 0 ++ (from_parent ∷ pid_lines 0 pids)),
    )

-- the texts of `msg`
abbrev pub msg : ℕ → List ℕ
msg zero = codes "1st msg" ++ 10 ∷ []
msg (suc i) = codes "2nd msg long" ++ 10 ∷ []

-- What child `i` of 05.c writes into the pipe and prints; `mode` is set if a signal has reached the
-- parent before the `fork`, or the child since.
abbrev pub child_05 : (mode : Bool) (i : ℕ) → List ℕ × List Line
child_05 true i = (msg i, sent i ∷ [])
child_05 false i = ([], no_signal ∷ [])

-- The bytes in the pipe when the children have written in an order.
abbrev pub written_05 : (mode : ℕ → Bool) (order : List ℕ) → List ℕ
written_05 mode [] = []
written_05 mode (i ∷ order) = (child_05 (mode i) i).0 ++ written_05 mode order

-- The parent of 05.c: it waits for the children and then reads once, into an array of 256 NULs.
abbrev pub parent_05 : (waits : ℕ → ℤ × ℕ) (pipe : List ℕ) (pids : List ℤ) → List Line
parent_05 waits pipe pids =
    parent_process
    ∷ from_parent
    ∷ (wait_loop waits rep_n 0 ++ (received (take 256 pipe) ∷ from_parent ∷ pid_lines 0 pids))

-- 05.c in one process
abbrev pub main_05 :
    (pipe_opens : Bool) (forks : ℕ → ℤ) (waits : ℕ → ℤ × ℕ) (mode : ℕ → Bool) (pipe : List ℕ)
    → ℕ × List Line
main_05 false forks waits mode pipe = (1, [])
main_05 true forks waits mode pipe = ends (fork_loop forks rep_n 0)
  where
    ends : Forked → ℕ × List Line
    ends failed = (3, parent_process ∷ fork_failed ∷ [])
    ends (child i) = (0, (child_05 (mode i) i).1)
    ends (parent_of pids) = (0, parent_05 waits pipe pids)

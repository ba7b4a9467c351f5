-- ===== src/Pipes/Signals.antt =====
-- What the parent of os_01/lab_04/src/05.c receives.
use operating_sys.Base.{
  ℕ, zero, suc, ◌+◌, ◌*◌, ◌≤◌, ◌<◌, ◌≡◌, refl, ap, inl, inr, Bool, true, List, [], ◌∷◌, ◌++◌, arith,
  if◌then◌else◌, Bool-cases, length, set, take-of_le,
}
use operating_sys.Base.Outcome.{ℤ, pos}
use operating_sys.Pipes.{
  parent_process, from_parent, received, wait_loop, pid_lines, msg, written_05, main_05,
}
use operating_sys.Pipes.Forks.{pids_from, fork_loop-parent_of}

-- the messages of the children whose `mode` is set
abbrev pub signaled_messages : (mode : ℕ → Bool) (order : List ℕ) → List ℕ
signaled_messages mode [] = []
signaled_messages mode (i ∷ order) =
    if mode i then msg i ++ signaled_messages mode order else signaled_messages mode order

written_05-signaled_messages :
    (mode : ℕ → Bool) (order : List ℕ)
    → (written_05 mode order ≡ signaled_messages mode order)
      × (length (written_05 mode order) ≤ 13 * length order)
written_05-signaled_messages mode [] = (refl, omega arith)
written_05-signaled_messages mode (i ∷ order) =
    let (same, short) = written_05-signaled_messages mode order in
    elim (Bool-cases (mode i)) [
      | inl set ↦ rw set (ap (◌++◌ (msg i)) same, longer i (written_05 mode order) short)
      | inr clear ↦ rw clear (same, omega (arith, short))
    ]
  where
    longer :
        (i : ℕ) (rest : List ℕ)
        → length rest ≤ 13 * length order
        → length (msg i ++ rest) ≤ 13 * length (i ∷ order)
    longer zero rest h = omega (arith, h)
    longer (suc i) rest h = omega (arith, h)

-- Where both children are started, in whichever of the orders they write: the parent's line
-- about what it received has the whole messages of just those children that a signal has reached
-- before they looked, in that order, between the reports on the children and their numbers.
pub main_05-signaled_messages :
    (forks : ℕ → ℤ) (pids : ℕ → ℕ) (waits : ℕ → ℤ × ℕ) (mode : ℕ → Bool) (order : List ℕ)
    → ((j : ℕ) → j < 2 → forks j ≡ pos (suc (pids j)))
    → length order ≤ 2
    → main_05 true forks waits mode (written_05 mode order) ≡ (
      0,
      parent_process
          ∷ from_parent
          ∷ (wait_loop waits 2 0
              ++ (received (signaled_messages mode order)
                  ∷ from_parent
                  ∷ pid_lines 0 (pids_from pids 2 0))),
    )
main_05-signaled_messages forks pids waits mode order started few =
    let (same, short) = written_05-signaled_messages mode order in
    let whole = take-of_le 256 (written_05 mode order) (omega (arith, short, few)) in
    let both = fork_loop-parent_of forks pids 2 0 (λ j b. rw (zero_add j) (started j b)) in
    rw (both, whole, same) refl
  where
    zero_add : (j : ℕ) → 0 + j ≡ j
    zero_add j = omega arith

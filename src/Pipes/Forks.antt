-- ===== src/Pipes/Forks.antt =====
-- The loops of os_01/lab_04/src over `fork` and `wait`.
use operating_sys.Base.{
  ℕ, zero, suc, ◌+◌, ◌<◌, ◌≡◌, refl, ap, Bool, true, false, not, ◌&&◌, List, [], ◌∷◌, arith,
  if◌then◌else◌,
}
use operating_sys.Base.Outcome.{ℤ, pos, negsuc, nonzero, negative}
use operating_sys.Pipes.{
  Line, exit_code, completed, parent_process, child_process, fork_failed, exec_failed, from_parent,
  child_pid, sent, no_signal, received, Forked, parent_of, failed, child, with_child, fork_loop,
  wait_loop,
}

-- the numbers that `fork` gives in `n` rounds from `i` on
abbrev pub pids_from : (pids : ℕ → ℕ) (n i : ℕ) → List ℤ
pids_from pids zero i = []
pids_from pids (suc n) i = pos (suc (pids i)) ∷ pids_from pids n (i + 1)

abbrev pub is_parent : ℤ → Bool
is_parent pid = nonzero pid && not (negative pid)

pub fork_loop-parent_of :
    (forks : ℕ → ℤ) (pids : ℕ → ℕ) (k i : ℕ)
    → ((j : ℕ) → j < k → forks (i + j) ≡ pos (suc (pids (i + j))))
    → fork_loop forks k i ≡ parent_of (pids_from pids k i)
unfolding fork_loop
fork_loop-parent_of forks pids zero i all = refl
fork_loop-parent_of forks pids (suc k) i all =
    let here : forks i ≡ pos (suc (pids i)) = rw i_zero at (all 0 (omega arith)) in
    let later =
      fork_loop-parent_of forks pids k (i + 1)
        (λ j b. rw (i_suc j) at (all (suc j) (omega arith))) in
    rw (here, later) refl
  where
    i_zero : i + 0 ≡ i
    i_zero = omega arith

    i_suc : (j : ℕ) → i + suc j ≡ i + 1 + j
    i_suc j = omega arith

-- Of the rounds from `i` on, the first `k` give children's numbers. If these are all rounds, the
-- process is the parent of these children; if another round follows, whose `fork` does not give a
-- child's number, that one decides how the loop ends: as the child of that round, or as a failure,
-- whatever the later answers are.
pub fork_loop-first :
    (forks : ℕ → ℤ) (pids : ℕ → ℕ) (k m i n : ℕ)
    → n ≡ k + suc m
    → ((j : ℕ) → j < k → forks (i + j) ≡ pos (suc (pids (i + j))))
    → is_parent (forks (i + k)) ≡ false
    → (fork_loop forks k i ≡ parent_of (pids_from pids k i))
      × (fork_loop forks n i ≡ (if negative (forks (i + k)) then failed else child (i + k)))
unfolding fork_loop
fork_loop-first forks pids k m i n count all first =
    (fork_loop-parent_of forks pids k i all, stops k m i n count all first)
  where
    i_zero : (i : ℕ) → i + 0 ≡ i
    i_zero i = omega arith

    i_suc : (i j : ℕ) → i + suc j ≡ i + 1 + j
    i_suc i j = omega arith

    decides :
        (i : ℕ) (pid : ℤ) (rest : Forked)
        → is_parent pid ≡ false
        → (if negative pid then failed else if nonzero pid then with_child pid rest else child i)
          ≡ (if negative pid then failed else child i)
    decides i (pos zero) rest e = refl
    decides i (pos (suc p)) rest e = cc
    decides i (negsuc p) rest e = refl

    passes :
        (pid : ℤ) (i : ℕ) (b : Bool)
        → with_child pid (if b then failed else child i) ≡ (if b then failed else child i)
    passes pid i true = refl
    passes pid i false = refl

    stops :
        (k m i n : ℕ)
        → n ≡ k + suc m
        → ((j : ℕ) → j < k → forks (i + j) ≡ pos (suc (pids (i + j))))
        → is_parent (forks (i + k)) ≡ false
        → fork_loop forks n i ≡ (if negative (forks (i + k)) then failed else child (i + k))
    stops k m i zero count all first = absurd (omega (arith, count))
    stops zero m i (suc n) count all first =
        let place : i + 0 ≡ i = omega arith in
        rw place (decides i (forks i) (fork_loop forks n (i + 1)) (rw place at first))
    stops (suc k) m i (suc n) count all first =
        let later =
          stops k m (i + 1) n (omega (arith, count))
            (λ j b. rw (i_suc i j) at (all (suc j) (omega arith))) (rw (i_suc i k) at first) in
        let here : forks i ≡ pos (suc (pids i)) = rw (i_zero i) at (all 0 (omega arith)) in
        rw (here, later, i_suc i k)
          (passes (pos (suc (pids i))) (i + 1 + k) (negative (forks (i + 1 + k))))

abbrev pub exit_codes : List Line → List (ℕ × ℕ)
exit_codes [] = []
exit_codes (exit_code number code ∷ lines) = (number, code) ∷ exit_codes lines
exit_codes (parent_process ∷ lines) = exit_codes lines
exit_codes (child_process i ∷ lines) = exit_codes lines
exit_codes (fork_failed ∷ lines) = exit_codes lines
exit_codes (exec_failed ∷ lines) = exit_codes lines
exit_codes (from_parent ∷ lines) = exit_codes lines
exit_codes (completed pid status ∷ lines) = exit_codes lines
exit_codes (child_pid i pid ∷ lines) = exit_codes lines
exit_codes (sent i ∷ lines) = exit_codes lines
exit_codes (no_signal ∷ lines) = exit_codes lines
exit_codes (received text ∷ lines) = exit_codes lines

abbrev pub zeros_from : (n i : ℕ) → List (ℕ × ℕ)
zeros_from zero i = []
zeros_from (suc n) i = (i + 1, 0) ∷ zeros_from n (i + 1)

-- Whatever the children did, the line about each says that it completed with exit code 0, since
-- the macros look at `ret_val`: two runs whose children end differently print the same codes.
pub wait_loop-zeros_from :
    (waits : ℕ → ℤ × ℕ) (n i : ℕ) → exit_codes (wait_loop waits n i) ≡ zeros_from n i
unfolding wait_loop
wait_loop-zeros_from waits zero i = refl
wait_loop-zeros_from waits (suc n) i = ap (◌∷◌ (i + 1, 0)) (wait_loop-zeros_from waits n (i + 1))

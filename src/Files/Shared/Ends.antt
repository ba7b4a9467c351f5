-- ===== src/Files/Shared/Ends.antt =====
-- Every run of os_02/lab_05/src/01_thread.c ends.
use operating_sys.Base.{
  ℕ, zero, suc, ◌+◌, ◌*◌, ◌≤◌, ◌<◌, ◌≡◌, refl, sym, ap, ◌∙◌, subst, ◌≢◌, inl, inr, some, List, [],
  ◌∷◌, arith, Option-cases, update, length, drop, length-append,
}
use operating_sys.Base.Family.{sum_over, sum_over-update}
use operating_sys.Files.{scan_char}
use operating_sys.Files.Stream.{pending, head_of, scan_char-pending}
use operating_sys.Files.Shared.{
  Thread, scanning, printing, ended, System, Move, scan, end_of_file, print, Step, pick, initial,
  Reach, start, later, scan_none,
}

-- twice the bytes that are still to be scanned, and what each thread has still to do besides
abbrev pub to_do : Thread → ℕ
to_do (scanning waiting) = 2 * length waiting + 1
to_do (printing c waiting) = 2 * length waiting + 2
to_do ended = 0

length_head : (xs : List ℕ) {c : ℕ} → head_of xs ≡ some c → length xs ≡ length (drop 1 xs) + 1
length_head [] e = cc
length_head (x ∷ xs) e = omega arith

Move-to_do :
    {file : List ℕ} {s : System} {t u : Thread} {o : ℕ} {out : List ℕ}
    → Move file s t o out u
    → to_do u + 2 * length (drop o file) + 1 ≤ to_do t + 2 * length (drop s.offset file)
Move-to_do {file} {s} (scan {waiting} given) =
    let after = scan_char file waiting s.offset in
    let (first, rest) = scan_char-pending file waiting s.offset in
    omega (
      arith,
      length_head (pending file waiting s.offset) (sym first ∙ given),
      ap length rest,
      length-append waiting (drop s.offset file),
      length-append after.1 (drop after.2 file),
    )
Move-to_do {file} {s} (end_of_file {waiting} given) =
    let (none_held, past, past') = scan_none file waiting s.offset given in
    omega (arith, ap length none_held, ap length past, ap length past')
Move-to_do print = omega arith

pub steps : {file : List ℕ} {n : ℕ} {s : System} → Reach file n s → ℕ
steps start = 0
steps (later r st) = steps r + 1

sum_over_initial : (n : ℕ) → sum_over to_do n initial.thread ≡ n
unfolding sum_over
sum_over_initial zero = refl
sum_over_initial (suc n) = omega (arith, sum_over_initial n)

Step-to_do :
    {file : List ℕ} {n : ℕ} {s t : System}
    → Step file n s t
    → sum_over to_do n t.thread + 2 * length (drop t.offset file) + 1
      ≤ sum_over to_do n s.thread + 2 * length (drop s.offset file)
Step-to_do {n} {s} (pick i {t = u} below mv) =
    omega (arith, Move-to_do mv, sum_over-update to_do n i s.thread u below)

-- Every run of the threads ends: there are at most two steps for each byte and one for each thread.
pub steps_bounded :
    {file : List ℕ} {n : ℕ} {s : System} (r : Reach file n s)
    → steps r + sum_over to_do n s.thread + 2 * length (drop s.offset file) ≤ 2 * length file + n
unfolding steps
steps_bounded {n} start = omega (arith, sum_over_initial n)
steps_bounded (later r st) = omega (arith, steps_bounded r, Step-to_do st)

-- A thread that has not ended can move.
pub thread_moves :
    {file : List ℕ} {n : ℕ} (s : System) (i : ℕ)
    → i < n
    → s.thread i ≢ ended
    → (t : System) × Step file n s t
thread_moves {file} {n} s i below going = go (s.thread i) refl
  where
    move :
        {t u : Thread} {o : ℕ} {out : List ℕ}
        → s.thread i ≡ t
        → Move file s t o out u
        → (v : System) × Step file n s v
    move {u} {o} {out} e mv = (
      record { offset = o; thread = update s.thread i u; printed = out },
      pick i below (subst (λ t. Move file s t o out u) (sym e) mv),
    )

    go : (t : Thread) → s.thread i ≡ t → (v : System) × Step file n s v
    go (scanning waiting) e = elim (Option-cases (scan_char file waiting s.offset).0) [
      | inl end ↦ move e (end_of_file end)
      | inr (c, given) ↦ move e (scan given)
    ]
    go (printing c waiting) e = move e print
    go ended e = absurd (going e)

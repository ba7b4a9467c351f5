-- ===== src/Walk/Summary.antt =====
-- `main` of os_02/lab_dir_of_catalog/lab_own/main.c up to the numbers that it prints; the
-- percentages are those of a count in `total`.
use operating_sys.Base.{ℕ, ◌+◌, ◌≤◌, ◌≡◌, refl, List, [], ◌∷◌, ◌==◌, if◌then◌else◌, length}
use operating_sys.Base.Outcome.{Outcome, done, exited, ◌>>=◌}
use operating_sys.Walk.{Counters, Kind, dir, Files, myftw_n}
use operating_sys.Walk.Tree.{Describes, CanReport, Content, folder, tally_content, field}
use operating_sys.Walk.Count.{myftw_n_lem}

abbrev pub sum_of : Counters → ℕ
sum_of c = c.nreg + c.ndir + c.nblk + c.nchr + c.nfifo + c.nslink + c.nsock

-- The number that the percentages are taken of; it is never 0.
unfoldable pub total_of : Counters → ℕ
total_of c = if sum_of c == 0 then 1 else sum_of c

pub record Summary : Type 0 where
  pub status : ℕ
  pub counters : Counters
  pub total : ℕ

-- `argv` without the two texts is an error; the walk's result is the status.
unfoldable pub main : Files → (fuel : ℕ) → (argv : List (List ℕ)) → Outcome Summary
unfolding total_of
main f fuel (program ∷ path ∷ []) = do
  walked ← myftw_n f fuel path
  done (record {
    status = walked.0;
    counters = walked.1.counters;
    total = total_of walked.1.counters;
  })
main f fuel [] = exited 1
main f fuel (program ∷ []) = exited 1
main f fuel (program ∷ path ∷ more ∷ args) = exited 1

-- On a described directory, with room for the messages, and with a round for each directory of it: the counts are those of the tree
-- below it, their total is their sum, or 1 where there is nothing to count, and the status is 1,
-- the one of a failure.
pub main_counts :
    (f : Files) (fuel : ℕ) (program path : List ℕ) (i : ℕ) (c : Content)
    → Describes f path (folder i c)
    → CanReport f path (folder i c)
    → length path ≤ 256
    → 1 + tally_content dir c ≤ fuel
    → (s : Summary) × (main f fuel (program ∷ path ∷ []) ≡ done s)
      × (s.status ≡ 1)
      × ((k : Kind) → field k s.counters ≡ tally_content k c)
      × (s.total ≡ total_of s.counters)
unfolding main
main_counts f fuel program path i c described rooms short enough =
    let (w, ran, empty, counted, output) =
      myftw_n_lem f fuel path i c described rooms short enough in
    (
      record { status = 1; counters = w.counters; total = total_of w.counters },
      rw ran refl,
      refl,
      counted,
      refl,
    )

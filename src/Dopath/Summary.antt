-- ===== src/Dopath/Summary.antt =====
-- `main` of os_02/lab_dir_of_catalog/temp/main.c up to the numbers that it prints; the percentages
-- are those of a count in `total`.
use operating_sys.Base.{
  ℕ, ◌-◌, ◌%◌, ◌≤◌, ◌≡◌, refl, Bool, true, false, List, [], ◌∷◌, if◌then◌else◌,
}
use operating_sys.Base.Outcome.{Outcome, done, exited, ◌>>=◌, ℤ, pos, negsuc, minus}
use operating_sys.Walk.{Counters, Kind, Files}
use operating_sys.Walk.Summary.{Summary, total_of}
use operating_sys.Walk.Tree.{Entry, Describes, tally, field}
use operating_sys.Dopath.{count_files}
use operating_sys.Dopath.Visit.{stops, before, height, CanEnter, count_files_lem}

-- The status that the system keeps of `exit(ret)`: -1 becomes 255.
abbrev pub exit_status : ℤ → ℕ
exit_status (pos n) = n % 256
exit_status (negsuc n) = 255 - n % 256

unfoldable pub main :
    Files → (chdir : List ℕ → Bool) (fuel : ℕ) → (argv : List (List ℕ)) → Outcome Summary
unfolding total_of
main f chdir fuel (program ∷ path ∷ []) = do
  counted ← count_files f chdir fuel path
  done (record { status = exit_status counted.0; counters = counted.1; total = total_of counted.1 })
main f chdir fuel [] = exited 255
main f chdir fuel (program ∷ []) = exited 255
main f chdir fuel (program ∷ path ∷ more ∷ args) = exited 255

-- On a described entry, where the program may enter every directory that it can open, and with a level of the recursion for each level of its tree: the program
-- ends with status 0 and the counts of the tree, or with 255 and the counts up to the entry
-- that stops it.
pub main_counts :
    (f : Files) (chdir : List ℕ → Bool) (fuel : ℕ) (program path : List ℕ) (e : Entry)
    → Describes f path e
    → CanEnter chdir path e
    → height e ≤ fuel
    → (s : Summary) × (main f chdir fuel (program ∷ path ∷ []) ≡ done s)
      × (s.status ≡ (if stops e then 255 else 0))
      × ((k : Kind) → field k s.counters ≡ (if stops e then before k e else tally k e))
unfolding main
main_counts f chdir fuel program path e described entered enough =
    let (c, ran, counted) = count_files_lem f chdir fuel path e described entered enough in
    (
      record { status = if stops e then 255 else 0; counters = c; total = total_of c },
      ended (stops e) c ran,
      refl,
      counted,
    )
  where
    ended :
        (b : Bool) (c : Counters)
        → count_files f chdir fuel path ≡ done ((if b then minus 1 else pos 0), c)
        → main f chdir fuel (program ∷ path ∷ [])
          ≡ done (record { status = if b then 255 else 0; counters = c; total = total_of c })
    ended true c ran = rw ran refl
    ended false c ran = rw ran refl

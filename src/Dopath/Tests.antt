-- ===== src/Dopath/Tests.antt =====
-- Runs of the model of os_02/lab_dir_of_catalog/temp/main.c.
use operating_sys.Base.{
  ◌≤◌, ◌≡◌, refl, true, none, some, [], ◌∷◌, arith, ◌==◌, if◌then◌else◌, length,
}
use operating_sys.Base.Outcome.{done, pos, minus}
use operating_sys.Walk.{Kind, regular, dir, slink, Counters, Files, is_dots}
use operating_sys.Walk.Tree.{
  field, lost, file, folder, Entry, entries, nothing, named, names, Describes, tally,
}
use operating_sys.Dopath.{resolve, has_slash, count_files}
use operating_sys.Dopath.Visit.{stops, before, height, CanEnter, count_files_lem}

-- A directory `d` with a file `a`, an entry `bb` that cannot be examined, and a link `ccc`.
abbrev files : Files
files = record {
  lstat = λ path.
      if length path == 1
      then some (record { kind = dir; st_ino = 4 })
      else if length path == 3
      then some (record { kind = regular; st_ino = 5 })
      else if length path == 4
      then none
      else some (record { kind = slink; st_ino = 7 });
  error_text = λ path. [];
  opendir = λ path. some ((97 ∷ []) ∷ (98 ∷ 98 ∷ []) ∷ (99 ∷ 99 ∷ 99 ∷ []) ∷ []);
}

abbrev tree : Entry
tree = folder 4 (
    entries (
      named (97 ∷ []) (file regular 5)
        (named (98 ∷ 98 ∷ []) lost (named (99 ∷ 99 ∷ 99 ∷ []) (file slink 7) nothing))))

described : Describes files (100 ∷ []) tree
unfolding Describes names is_dots
described = (refl, (refl, (refl, (refl, refl), (refl, refl, (refl, (refl, refl), tt)))))

entered : CanEnter (λ path. true) (100 ∷ []) tree
unfolding CanEnter has_slash
entered = (refl, (refl, tt, (refl, tt, (refl, tt, tt))))

low : height tree ≤ 2
unfolding height
low = omega arith

count_files_lem_example :
    (c : Counters) × (count_files files (λ path. true) 2 (100 ∷ [])
      ≡ done ((if stops tree then minus 1 else pos 0), c))
    × ((k : Kind) → field k c ≡ (if stops tree then before k tree else tally k tree))
count_files_lem_example =
    count_files_lem files (λ path. true) 2 (100 ∷ []) tree described entered low

stops_here :
    count_files files (λ path. true) 2 (100 ∷ [])
    ≡ done (
      minus 1,
      record { nreg = 1; ndir = 1; nblk = 0; nchr = 0; nfifo = 0; nslink = 0; nsock = 0 },
    )
unfolding count_files is_dots resolve
stops_here = refl

-- A directory `d` with a directory `ee` that opens, with a file `xxx`, and cannot be entered: `xxx`
-- is looked for in `d`, where it is not.
abbrev locked : Files
locked = record {
  lstat = λ path.
      if length path == 5
      then none
      else if length path == 8
      then some (record { kind = regular; st_ino = 7 })
      else some (record { kind = dir; st_ino = 4 });
  error_text = λ path. [];
  opendir = λ path.
      if length path == 1 then some ((101 ∷ 101 ∷ []) ∷ []) else some ((120 ∷ 120 ∷ 120 ∷ []) ∷ []);
}

misses_file :
    count_files locked (λ path. length path == 1) 3 (100 ∷ [])
    ≡ done (
      minus 1,
      record { nreg = 0; ndir = 2; nblk = 0; nchr = 0; nfifo = 0; nslink = 0; nsock = 0 },
    )
unfolding count_files is_dots resolve
misses_file = refl

-- ===== src/Walk/Tests.antt =====
-- Runs of the model of os_02/lab_dir_of_catalog/lab_own/main.c.
use operating_sys.Base.{◌+◌, ◌≡◌, refl, some, [], ◌∷◌, arith, ◌==◌, if◌then◌else◌, length}
use operating_sys.Base.Outcome.{done}
use operating_sys.Walk.{Kind, regular, dir, slink, Files, Walk, is_dots, myftw_n}
use operating_sys.Walk.Tree.{
  field, file, folder, Content, entries, nothing, dots, named, names, Describes, DescribesAll,
  CanReport, tally, tally_content, size_content,
}
use operating_sys.Walk.Count.{myftw_n_lem}

-- A directory `d` with a file `a` and a directory `bb`, in which there is a link `c`.
abbrev files : Files
files = record {
  lstat = λ path.
      if length path == 1
      then some (record { kind = dir; st_ino = 4 })
      else if length path == 3
      then some (record { kind = regular; st_ino = 5 })
      else if length path == 4
      then some (record { kind = dir; st_ino = 6 })
      else some (record { kind = slink; st_ino = 7 });
  error_text = λ path. [];
  opendir = λ path.
      if length path == 1
      then some ((46 ∷ []) ∷ (97 ∷ []) ∷ (98 ∷ 98 ∷ []) ∷ [])
      else some ((99 ∷ []) ∷ (46 ∷ 46 ∷ []) ∷ []);
}

abbrev content : Content
content = entries (
    dots (46 ∷ []) (
      named (97 ∷ []) (file regular 5) (
        named (98 ∷ 98 ∷ [])
          (folder 6 (entries (named (99 ∷ []) (file slink 7) (dots (46 ∷ 46 ∷ []) nothing))))
          nothing)))

described : Describes files (100 ∷ []) (folder 4 content)
unfolding Describes names is_dots
described =
    let inner : DescribesAll files (100 ∷ 47 ∷ 98 ∷ 98 ∷ [])
        (named (99 ∷ []) (file slink 7) (dots (46 ∷ 46 ∷ []) nothing)) =
      (refl, (refl, refl), (refl, tt)) in
    (refl, (refl, (refl, (refl, (refl, refl), (refl, (refl, (refl, inner)), tt)))))

reportable : CanReport files (100 ∷ []) (folder 4 content)
unfolding CanReport
reportable = (tt, ((tt, tt), tt))

myftw_n_lem_example :
    (w : Walk) × (myftw_n files 2 (100 ∷ []) ≡ done (1, w))
    × (w.stack ≡ [])
    × ((k : Kind) → field k w.counters ≡ tally_content k content)
    × (length w.printed ≡ 1 + size_content content)
unfolding tally
myftw_n_lem_example =
    myftw_n_lem files 2 (100 ∷ []) 4 content described reportable (omega arith) (omega arith)

walk_prints :
    myftw_n files 2 (100 ∷ [])
    ≡ done (
      1,
      record {
        stack = [];
        counters = record {
          nreg = 1;
          ndir = 1;
          nblk = 0;
          nchr = 0;
          nfifo = 0;
          nslink = 1;
          nsock = 0;
        };
        printed = (0, 100 ∷ [], 4) ∷ (1, 97 ∷ [], 5) ∷ (1, 98 ∷ 98 ∷ [], 6) ∷ (2, 99 ∷ [], 7) ∷ [];
      },
    )
unfolding myftw_n
walk_prints = refl

-- ===== src/Walk/Count.antt =====
-- The walk of os_02/lab_dir_of_catalog/lab_own/main.c counts the tree.
use operating_sys.Base.{
  ℕ, zero, suc, ◌+◌, ◌≤◌, ◌≡◌, refl, ap, List, [], ◌∷◌, ◌++◌, arith, ◌==◌, length, length-append,
}
use operating_sys.Base.Outcome.{Outcome, done}
use operating_sys.Stack.Chain.{Item}
use operating_sys.Walk.{
  Kind, dir, Counters, no_files, myfunc, Files, Walk, join_path, proc_entry, proc_names, proc_dir,
  last_name, walk, myftw_n,
}
use operating_sys.Walk.Report.{stat_error-fits}
use operating_sys.Walk.Tree.{
  field, Entry, lost, file, folder, Content, shut, entries, Entries, nothing, dots, named, names,
  Describes, DescribesContent, DescribesAll, CanReport, CanReportContent, CanReportAll, index,
  one_if, tally, tally_content, tally_all, size, size_content, size_all,
}

field-myfunc :
    (k j : Kind) (c : Counters) → field k (myfunc j c) ≡ field k c + one_if (index k == index j)
unfolding field myfunc
field-myfunc k j c = ground arith

-- The directories on the stack, and what the system says of each.
Stacked : Files → List Item → List Content → Type 0
Stacked f [] cs = cs ≡ []
Stacked f (n ∷ ns) [] = ⊥
Stacked f (n ∷ ns) (c ∷ cs) = DescribesContent f n.0 c × CanReportContent f n.0 c × Stacked f ns cs

-- What the directories on the stack will still add: to a field, to the output, and to the rounds
-- of the loop.
owed : Kind → List Content → ℕ
owed k [] = 0
owed k (c ∷ cs) = tally_content k c + owed k cs

lines : List Content → ℕ
lines [] = 0
lines (c ∷ cs) = 1 + size_content c + lines cs

rounds : List Content → ℕ
rounds cs = length cs + owed dir cs

-- `run` ends; `w` has become `after`, by entries of which there are `kinds k` of the kind `k`, and `count` in all.
record Grown (f : Files) (w : Walk) (cs : List Content) (kinds : Kind → ℕ) (count : ℕ)
    (run : Outcome Walk) : Type 0 where
  after : Walk
  ends : run ≡ done after
  pending : List Content
  stacked : Stacked f after.stack pending
  counted :
      (k : Kind)
      → field k after.counters + owed k pending ≡ field k w.counters + owed k cs + kinds k
  output : length after.printed + lines pending ≡ length w.printed + lines cs + count
  turns : rounds pending ≡ rounds cs + kinds dir

entry-Grown :
    (f : Files) (level : ℕ) (path name : List ℕ) (w : Walk) (cs : List Content) (e : Entry)
    → Stacked f w.stack cs
    → Describes f (join_path path name) e
    → CanReport f (join_path path name) e
    → Grown f w cs (λ k. tally k e) (size e) (proc_entry f level path name w)
unfolding Describes CanReport tally size proc_entry Stacked owed lines rounds
entry-Grown f level path name w cs lost s d room =
    rw (proc_entry, d, stat_error-fits f (join_path path name) room)
      (record {
        after = w;
        ends = refl;
        pending = cs;
        stacked = s;
        counted = λ k. omega arith;
        output = omega arith;
        turns = omega arith;
      })
entry-Grown f level path name w cs (file j i) s (d, plain) room =
    rw (proc_entry, d, plain)
      (record {
        after = _;
        ends = refl;
        pending = cs;
        stacked = s;
        counted = λ k. omega (arith, field-myfunc k j w.counters);
        output = omega (arith, length-append w.printed ((level, name, i) ∷ []));
        turns = ground (arith, plain);
      })
entry-Grown f level path name w cs (folder i c) s (d, inside) room =
    rw (proc_entry, d)
      (record {
        after = _;
        ends = refl;
        pending = c ∷ cs;
        stacked = (inside, room, s);
        counted = λ k. ground (arith, field-myfunc k dir w.counters);
        output = ground arith;
        turns = ground arith;
      })

names-Grown :
    (f : Files) (level : ℕ) (path : List ℕ) (es : Entries) (w : Walk) (cs : List Content)
    → Stacked f w.stack cs
    → DescribesAll f path es
    → CanReportAll f path es
    → Grown f w cs (λ k. tally_all k es) (size_all es) (proc_names f level path (names es) w)
unfolding Describes CanReport tally size proc_names names
names-Grown f level path nothing w cs s d rooms = record {
  after = w;
  ends = refl;
  pending = cs;
  stacked = s;
  counted = λ k. omega arith;
  output = omega arith;
  turns = omega arith;
}
names-Grown f level path (dots name es) w cs s (dotted, d) rooms =
    rw (proc_names, dotted) (names-Grown f level path es w cs s d rooms)
names-Grown f level path (named name e es) w cs s (plain, here, d) (room, rooms) =
    let g = entry-Grown f level path name w cs e s here room in
    let g' = names-Grown f level path es g.after g.pending g.stacked d rooms in
    rw (proc_names, plain, g.ends)
      (record {
        after = g'.after;
        ends = g'.ends;
        pending = g'.pending;
        stacked = g'.stacked;
        counted = λ k. omega (arith, g.counted k, g'.counted k);
        output = omega (arith, g.output, g'.output);
        turns = omega (arith, g.turns, g'.turns);
      })

dir-Grown :
    (f : Files) (n : Item) (c : Content) (w : Walk) (cs : List Content)
    → Stacked f w.stack cs
    → DescribesContent f n.0 c
    → CanReportContent f n.0 c
    → Grown f w cs (λ k. tally_content k c) (size_content c) (proc_dir f n w)
unfolding Describes CanReport tally size proc_dir
dir-Grown f n shut w cs s d rooms =
    rw (proc_dir, d)
      (record {
        after = w;
        ends = refl;
        pending = cs;
        stacked = s;
        counted = λ k. omega arith;
        output = omega arith;
        turns = omega arith;
      })
dir-Grown f n (entries es) w cs s (d, inside) rooms =
    rw (proc_dir, d) (names-Grown f (n.1 + 1) n.0 es w cs s inside rooms)

-- The loop ends, and adds to the counters and to the output what the directories on the stack owe.
walk-owed :
    (f : Files) (fuel : ℕ) (w : Walk) (ns : List Item) (cs : List Content)
    → w.stack ≡ ns
    → Stacked f ns cs
    → rounds cs ≤ fuel
    → (w' : Walk) × (walk f fuel w ≡ done w')
      × (w'.stack ≡ [])
      × ((k : Kind) → field k w'.counters ≡ field k w.counters + owed k cs)
      × (length w'.printed ≡ length w.printed + lines cs)
unfolding Stacked owed lines rounds walk
walk-owed f zero w [] [] e s enough = (w, simp (walk, e), e, (λ k. omega arith), omega arith)
walk-owed f (suc fuel) w [] [] e s enough = (w, simp (walk, e), e, (λ k. omega arith), omega arith)
walk-owed f fuel w [] (c ∷ cs) e s enough = absurd (omega (arith, ap length s))
walk-owed f fuel w (n ∷ ns) [] e s enough = absurd s
walk-owed f zero w (n ∷ ns) (c ∷ cs) e s enough = absurd (omega arith)
walk-owed f (suc fuel) w (n ∷ ns) (c ∷ cs) e (d, rooms, s) enough =
    let line = (n.1, last_name n.0 n.0, n.2) ∷ [] in
    let w1 : Walk = record w { stack = ns; printed = w.printed ++ line } in
    let g = dir-Grown f n c w1 cs s d rooms in
    let (w', ends, empty, counted, output) =
      walk-owed f fuel g.after g.after.stack g.pending refl g.stacked (omega (arith, g.turns)) in
    (
      w',
      simp (walk, e, g.ends) ends,
      empty,
      (λ k. omega (arith, counted k, g.counted k)),
      omega (arith, output, g.output, length-append w.printed line),
    )

-- When the answers of the system describe a directory at the path, which is at most 256 bytes long,
-- with a tree under it, the message about any entry that `lstat` does not answer fits the buffer of
-- `err_doit` (path and error text have 4076 bytes together at most), and the loop gets one round for
-- every directory, the walk ends. Every field is then the number
-- of entries of its kind below the starting directory, which is not counted itself, and one line is
-- printed for each of these entries and one for the starting directory. The result is 1.
pub myftw_n_lem :
    (f : Files) (fuel : ℕ) (pathname : List ℕ) (i : ℕ) (c : Content)
    → Describes f pathname (folder i c)
    → CanReport f pathname (folder i c)
    → length pathname ≤ 256
    → 1 + tally_content dir c ≤ fuel
    → (w : Walk) × (myftw_n f fuel pathname ≡ done (1, w))
      × (w.stack ≡ [])
      × ((k : Kind) → field k w.counters ≡ tally_content k c)
      × (length w.printed ≡ 1 + size_content c)
unfolding myftw_n Describes CanReport Stacked owed lines rounds field
myftw_n_lem f fuel pathname i c (here, inside) rooms short enough =
    let w0 : Walk = record { stack = (pathname, 0, i) ∷ []; counters = no_files; printed = [] } in
    let (w, ends, empty, counted, output) =
      walk-owed f fuel w0 w0.stack (c ∷ []) refl (inside, rooms, refl) (omega arith) in
    (
      w,
      ground (arith, here, ends, short),
      empty,
      (λ k. ground (arith, counted k)),
      omega (arith, output),
    )

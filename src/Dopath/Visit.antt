-- ===== src/Dopath/Visit.antt =====
-- What the walk of os_02/lab_dir_of_catalog/temp/main.c has counted when it ends.
use operating_sys.Base.{
  ℕ, zero, suc, ◌+◌, ◌≤◌, ◌≡◌, refl, sym, subst, inl, inr, Bool, true, false, ◌||◌, List, [], ◌∷◌,
  arith, ltb, ◌==◌, if◌then◌else◌, Bool-cases,
}
use operating_sys.Base.Outcome.{Outcome, done, ℤ, pos, minus}
use operating_sys.Walk.{Kind, dir, Counters, no_files, Files, join_path, is_dots}
use operating_sys.Walk.Tree.{
  field, Entry, lost, file, folder, Content, shut, entries, Entries, nothing, dots, named, names,
  Describes, DescribesAll, index, one_if, tally, tally_all,
}
use operating_sys.Dopath.{
  Cwd, resolve, has_slash, chdir_up, counter, State, read_all, dopath, count_files,
}

field-counter :
    (k j : Kind) (c : Counters) → field k (counter j c) ≡ field k c + one_if (index k == index j)
unfolding field counter
field-counter k j c = ground arith

unfoldable mutual
  -- The walk stops at an entry that cannot be examined and at a directory that cannot be opened.
  pub stops : Entry → Bool
  stops lost = true
  stops (file k i) = false
  stops (folder i c) = stops_content c

  pub stops_content : Content → Bool
  stops_content shut = true
  stops_content (entries es) = stops_all es

  pub stops_all : Entries → Bool
  stops_all nothing = false
  stops_all (dots name es) = stops_all es
  stops_all (named name e es) = stops e || stops_all es

unfoldable mutual
  -- How many entries of a kind come before the place at which the walk stops, in the order of the
  -- directories.
  pub before : Kind → Entry → ℕ
  before k lost = 0
  before k (file j i) = one_if (index k == index j)
  before k (folder i c) = one_if (index k == 1) + before_content k c

  pub before_content : Kind → Content → ℕ
  before_content k shut = 0
  before_content k (entries es) = before_all k es

  pub before_all : Kind → Entries → ℕ
  before_all k nothing = 0
  before_all k (dots name es) = before_all k es
  before_all k (named name e es) = before k e + (if stops e then 0 else before_all k es)

abbrev pub larger : ℕ → ℕ → ℕ
larger a b = if ltb a b then b else a

unfoldable mutual
  -- How many levels there are.
  pub height : Entry → ℕ
  height lost = 1
  height (file k i) = 1
  height (folder i c) = 1 + height_content c

  pub height_content : Content → ℕ
  height_content shut = 0
  height_content (entries es) = height_all es

  pub height_all : Entries → ℕ
  height_all nothing = 0
  height_all (dots name es) = height_all es
  height_all (named name e es) = larger (height e) (height_all es)

unfoldable mutual
  -- Every directory with entries can be entered, and the names of entries have no slash.
  pub CanEnter : (chdir : List ℕ → Bool) → List ℕ → Entry → Type 0
  CanEnter chdir path lost = Unit
  CanEnter chdir path (file k i) = Unit
  CanEnter chdir path (folder i c) = CanEnterContent chdir path c

  pub CanEnterContent : (chdir : List ℕ → Bool) → List ℕ → Content → Type 0
  CanEnterContent chdir path shut = Unit
  CanEnterContent chdir path (entries es) = (chdir path ≡ true) × CanEnterAll chdir path es

  pub CanEnterAll : (chdir : List ℕ → Bool) → List ℕ → Entries → Type 0
  CanEnterAll chdir path nothing = Unit
  CanEnterAll chdir path (dots name es) = CanEnterAll chdir path es
  CanEnterAll chdir path (named name e es) =
      (has_slash name ≡ false) × CanEnter chdir (join_path path name) e × CanEnterAll chdir path es

-- Where a call leaves the program.
left_at : Entry → (name : List ℕ) → Cwd → Cwd
left_at lost name cwd = cwd
left_at (file k i) name cwd = cwd
left_at (folder i shut) name cwd = cwd
left_at (folder i (entries es)) name cwd = chdir_up (name ∷ cwd)

-- Behind a name it is where it was.
left_at_home :
    (e : Entry) (name : List ℕ) (cwd : Cwd)
    → has_slash name ≡ false
    → is_dots name ≡ false
    → left_at e name cwd ≡ cwd
unfolding left_at chdir_up
left_at_home lost name cwd one plain = refl
left_at_home (file k i) name cwd one plain = refl
left_at_home (folder i shut) name cwd one plain = refl
left_at_home (folder i (entries es)) name cwd one plain = rw (one, plain) refl

abbrev result : Bool → ℤ
result b = if b then minus 1 else pos 0

-- The call ends with `result stopped`, at `cwd`, and has counted `kinds`.
record Visited (s : State) (cwd : Cwd) (stopped : Bool) (kinds : Kind → ℕ)
    (run : Outcome (ℤ × State)) : Type 0 where
  counters : Counters
  ends : run ≡ done (result stopped, record { cwd = cwd; counters = counters })
  counted : (k : Kind) → field k counters ≡ field k s.counters + kinds k

mutual
  unfolding Describes CanEnter height stops before names dopath read_all resolve left_at

  visit-entry :
      (f : Files) (chdir : List ℕ → Bool) (fuel : ℕ) (name : List ℕ) (s : State) (e : Entry)
      → Describes f (resolve s.cwd name) e
      → CanEnter chdir (resolve s.cwd name) e
      → height e ≤ fuel
      → Visited s (left_at e name s.cwd) (stops e) (λ k. before k e) (dopath f chdir fuel name s)
  visit-entry f chdir zero name s lost d may fits = absurd (omega arith)
  visit-entry f chdir zero name s (file j i) d may fits = absurd (omega arith)
  visit-entry f chdir zero name s (folder i c) d may fits = absurd (omega arith)
  visit-entry f chdir (suc fuel) name s lost d may fits = record {
    counters = s.counters;
    ends = simp (dopath, d);
    counted = λ k. omega arith;
  }
  visit-entry f chdir (suc fuel) name s (file j i) (d, plain) may fits = record {
    counters = counter j s.counters;
    ends = simp (dopath, d, plain);
    counted = λ k. field-counter k j s.counters;
  }
  visit-entry f chdir (suc fuel) name s (folder i shut) (d, closed) may fits = record {
    counters = counter dir s.counters;
    ends = simp (dopath, d, closed);
    counted = λ k. omega (arith, field-counter k dir s.counters);
  }
  visit-entry f chdir (suc fuel) name s (folder i (entries es)) (d, (opened, inside)) (entered, may)
        fits =
      let s' : State = record { cwd = name ∷ s.cwd; counters = counter dir s.counters } in
      let v =
        visit-entries f chdir fuel s' (resolve s.cwd name) es (λ n. refl) inside may
          (omega arith) in
      record {
        counters = v.counters;
        ends = simp (dopath, d, opened, entered, v.ends);
        counted = λ k. omega (arith, v.counted k, field-counter k dir s.counters);
      }

  visit-entries :
      (f : Files) (chdir : List ℕ → Bool) (fuel : ℕ) (s : State) (path : List ℕ) (es : Entries)
      → ((name : List ℕ) → resolve s.cwd name ≡ join_path path name)
      → DescribesAll f path es
      → CanEnterAll chdir path es
      → height_all es ≤ fuel
      → Visited s s.cwd
          (stops_all es)
          (λ k. before_all k es)
          (read_all (λ name t. dopath f chdir fuel name t) (names es) s)
  visit-entries f chdir fuel s path nothing here d may fits = record {
    counters = s.counters;
    ends = refl;
    counted = λ k. omega arith;
  }
  visit-entries f chdir fuel s path (dots name es) here (dotted, d) may fits =
      rw (read_all, dotted) (visit-entries f chdir fuel s path es here d may fits)
  visit-entries f chdir fuel s path (named name e es) here (plain, d, ds) (one, m, ms) fits =
      let v =
        visit-entry f chdir fuel name s e (subst (λ p. Describes f p e) (sym (here name)) d)
          (subst (λ p. CanEnter chdir p e) (sym (here name)) m) (ground arith) in
      let home = left_at_home e name s.cwd one plain in
      elim (Bool-cases (stops e)) [
        | inl stop ↦ record {
          counters = v.counters;
          ends = simp (read_all, plain, v.ends, home, stop);
          counted = λ k. ground (arith, v.counted k, stop);
        }
        | inr goes ↦
            let s' : State = record { cwd = s.cwd; counters = v.counters } in
            let v' = visit-entries f chdir fuel s' path es here ds ms (ground arith) in
            record {
              counters = v'.counters;
              ends = simp (read_all, plain, v.ends, home, goes, v'.ends);
              counted = λ k. ground (arith, v.counted k, v'.counted k, goes);
            }
      ]

-- Where nothing stops the walk, all is counted.
mutual
  unfolding stops before tally

  pub before-tally : (k : Kind) (e : Entry) → stops e ≡ false → before k e ≡ tally k e
  before-tally k lost goes = refl
  before-tally k (file j i) goes = refl
  before-tally k (folder i shut) goes = refl
  before-tally k (folder i (entries es)) goes = omega (arith, before_all-tally_all k es goes)

  before_all-tally_all :
      (k : Kind) (es : Entries) → stops_all es ≡ false → before_all k es ≡ tally_all k es
  before_all-tally_all k nothing goes = refl
  before_all-tally_all k (dots name es) goes = before_all-tally_all k es goes
  before_all-tally_all k (named name e es) goes =
      ground (arith, before-tally k e, before_all-tally_all k es)

-- When the answers of the system describe a tree at the path, `chdir` succeeds for every directory
-- of it that could be opened, no name has a slash, and the recursion may go as deep as the tree, the
-- walk ends. It returns -1 if it meets an entry that `lstat` does not answer or a
-- directory that does not open, and 0 if it meets none. Every counter is the number of entries of
-- its kind that come before that place, and of all in the tree if there is none; the starting
-- directory is among them.
pub count_files_lem :
    (f : Files) (chdir : List ℕ → Bool) (fuel : ℕ) (filename : List ℕ) (e : Entry)
    → Describes f filename e
    → CanEnter chdir filename e
    → height e ≤ fuel
    → (c : Counters) × (count_files f chdir fuel filename
        ≡ done ((if stops e then minus 1 else pos 0), c))
      × ((k : Kind) → field k c ≡ (if stops e then before k e else tally k e))
unfolding count_files field resolve
count_files_lem f chdir fuel filename e d may fits =
    let v =
      visit-entry f chdir fuel filename (record { cwd = []; counters = no_files }) e d may fits in
    (v.counters, simp v.ends, λ k. ground (arith, v.counted k, before-tally k e))

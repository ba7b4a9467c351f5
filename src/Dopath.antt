-- ===== src/Dopath.antt =====
-- os_02/lab_dir_of_catalog/temp/main.c: a recursive walk over a directory, which changes the
-- working directory as it goes. What `lstat`, `opendir`, `readdir` and `chdir` answer is an argument,
-- by the path from the directory in which the program started; `chdir("..")` succeeds.
pub mod Visit
pub mod Summary
mod Tests
use operating_sys.Base.{
  ℕ, zero, suc, ◌+◌, ◌-◌, ◌*◌, ◌/◌, ◌%◌, ◌^◌, ◌≤◌, ◌<◌, ◌≡◌, refl, sym, ap, ◌∙◌, subst, ◌≢◌, ◌↔◌,
  ◌⊎◌, inl, inr, Bool, true, false, not, ◌&&◌, ◌||◌, Option, none, some, List, [], ◌∷◌, ◌++◌, map,
  append_assoc, append-nil, arith, dec_lt, ℕ_discrete, ltb, leb, ◌==◌, if◌then◌else◌, ltb→lt,
  lt→ltb, leb→le, ==_iff, tests, Bool-cases, Option-cases, update, length, get_elem?, get_or, set,
  take, drop, replicate, All, length-append, length-take, take-append, length-set, length-replicate,
  get_elem?-set_self, get_elem?-set_ne, take-of_le,
}
use operating_sys.Base.Outcome.{
  Outcome, done, exited, aborted, fault, out_of_fuel, ◌>>=◌, ◌>>◌, char_at, ℤ, pos, negsuc, minus,
  nonzero, negative, within,
}
use operating_sys.Walk.{
  Kind, regular, dir, block, character, fifo, slink, sock, Counters, no_files, Stat, Files,
  join_path, is_dir, is_dots,
}

-- The steps from the directory in which the program started to the working directory, the last one
-- first: the starting path, names of directories, and `..`.
abbrev pub Cwd : Type 0
Cwd = List (List ℕ)

-- Where a name leads from the working directory.
unfoldable pub resolve : Cwd → List ℕ → List ℕ
resolve [] name = name
resolve (d ∷ ds) name = join_path (resolve ds d) name

unfoldable pub has_slash : List ℕ → Bool
has_slash [] = false
has_slash (b ∷ bs) = b == 47 || has_slash bs

-- `chdir("..")`: behind the name of a directory it takes the step back, and behind a path of several
-- parts, behind `.` and `..` and at the start it is a step of its own.
unfoldable pub chdir_up : Cwd → Cwd
unfolding has_slash is_dots
chdir_up [] = (46 ∷ 46 ∷ []) ∷ []
chdir_up (d ∷ ds) = if has_slash d || is_dots d then (46 ∷ 46 ∷ []) ∷ d ∷ ds else ds

-- `counter` for FTW_F and FTW_D. It returns 0 for both, and -1 for FTW_DNR and FTW_NS.
pub counter : Kind → Counters → Counters
counter regular c = record c { nreg = c.nreg + 1 }
counter dir c = record c { ndir = c.ndir + 1 }
counter block c = record c { nblk = c.nblk + 1 }
counter character c = record c { nchr = c.nchr + 1 }
counter fifo c = record c { nfifo = c.nfifo + 1 }
counter slink c = record c { nslink = c.nslink + 1 }
counter sock c = record c { nsock = c.nsock + 1 }

pub record State : Type 0 where
  pub cwd : Cwd
  pub counters : Counters

-- The loop over the names of a directory, which ends at the first result that is not 0.
unfoldable pub read_all :
    (visit : List ℕ → State → Outcome (ℤ × State)) → List (List ℕ) → State → Outcome (ℤ × State)
read_all visit [] s = done (pos 0, s)
read_all visit (name ∷ names) s =
    if is_dots name
    then read_all visit names s
    else do (ret, t) ← visit name s; if nonzero ret then done (ret, t) else read_all visit names t

-- `dopath` with `fuel` levels of recursion. The result of `chdir` is not looked at: where it fails,
-- the names are looked up in the directory in which the program stands, and `chdir("..")` leaves
-- that one.
unfoldable pub dopath :
    Files → (chdir : List ℕ → Bool) (fuel : ℕ) → (filename : List ℕ) → State → Outcome (ℤ × State)
unfolding read_all counter chdir_up
dopath f chdir zero filename s = out_of_fuel
dopath f chdir (suc fuel) filename s = elim (f.lstat (resolve s.cwd filename)) [
  | none ↦ done (minus 1, s)
  | some st ↦
      let s' : State = record s { counters = counter st.kind s.counters } in
      if not (is_dir st.kind) then done (pos 0, s') else elim (f.opendir (resolve s.cwd filename)) [
        | none ↦ done (minus 1, s')
        | some names ↦ do
          let inside = if chdir (resolve s.cwd filename) then filename ∷ s.cwd else s.cwd
          (ret, t) ←
              read_all (λ name t. dopath f chdir fuel name t) names (record s' { cwd = inside })
          done (ret, record t { cwd = chdir_up t.cwd })
      ]
]

-- what `main` does before it prints the counters
unfoldable pub count_files :
    Files → (chdir : List ℕ → Bool) (fuel : ℕ) → (filename : List ℕ) → Outcome (ℤ × Counters)
unfolding dopath
count_files f chdir fuel filename = do
  (ret, s) ← dopath f chdir fuel filename (record { cwd = []; counters = no_files })
  done (ret, s.counters)

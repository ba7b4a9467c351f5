-- ===== src/Walk.antt =====
-- os_02/lab_dir_of_catalog/lab_own/main.c: a walk over a directory with a stack of the directories
-- that are still to be read. What `lstat`, `opendir` and `readdir` answer is an argument. The stack
-- is the list that Stack.Chain makes of the linked nodes; it starts empty, as it does where
-- `malloc` returns memory that is clear. Memory is always granted.
pub mod Tree
pub mod Report
pub mod Count
pub mod Summary
mod Tests
use operating_sys.Base.{
  ℕ, zero, suc, ◌+◌, ◌-◌, ◌*◌, ◌/◌, ◌%◌, ◌^◌, ◌≤◌, ◌<◌, ◌≡◌, refl, sym, ap, ◌∙◌, subst, ◌≢◌, ◌↔◌,
  ◌⊎◌, inl, inr, Bool, true, false, not, ◌&&◌, ◌||◌, Option, none, some, List, [], ◌∷◌, ◌++◌, map,
  append_assoc, append-nil, arith, dec_lt, ℕ_discrete, ltb, leb, ◌==◌, if◌then◌else◌, ltb→lt,
  lt→ltb, leb→le, ==_iff, tests, Bool-cases, Option-cases, update, length, get_elem?, get_or, set,
  take, drop, replicate, All, length-append, length-take, take-append, length-set, length-replicate,
  get_elem?-set_self, get_elem?-set_ne, take-of_le,
}
use operating_sys.Base.Outcome.{
  Outcome, done, exited, aborted, fault, out_of_fuel, ◌>>=◌, ◌>>◌, char_at, ℤ, pos, negsuc, minus,
  nonzero, negative, within,
}
use operating_sys.Base.Texts.{codes}
use operating_sys.Messages.Walker.{err_ret}
use operating_sys.Stack.Chain.{Item}

-- the kinds of file that the counters tell apart
pub data Kind : Type 0 where
  regular : Kind
  dir : Kind
  block : Kind
  character : Kind
  fifo : Kind
  slink : Kind
  sock : Kind

pub record Counters : Type 0 where
  pub nreg : ℕ
  pub ndir : ℕ
  pub nblk : ℕ
  pub nchr : ℕ
  pub nfifo : ℕ
  pub nslink : ℕ
  pub nsock : ℕ

abbrev pub no_files : Counters
no_files = record { nreg = 0; ndir = 0; nblk = 0; nchr = 0; nfifo = 0; nslink = 0; nsock = 0 }

-- what `myfunc` adds for FTW_F and FTW_D
pub myfunc : Kind → Counters → Counters
myfunc regular c = record c { nreg = c.nreg + 1 }
myfunc dir c = record c { ndir = c.ndir + 1 }
myfunc block c = record c { nblk = c.nblk + 1 }
myfunc character c = record c { nchr = c.nchr + 1 }
myfunc fifo c = record c { nfifo = c.nfifo + 1 }
myfunc slink c = record c { nslink = c.nslink + 1 }
myfunc sock c = record c { nsock = c.nsock + 1 }

pub record Stat : Type 0 where
  pub kind : Kind
  pub st_ino : ℕ

-- `none` where `lstat` and `opendir` fail; else the names that `readdir` returns. `error_text` is
-- what `strerror` says of the path where `lstat` fails.
pub record Files : Type 0 where
  pub lstat : List ℕ → Option Stat
  pub error_text : List ℕ → List ℕ
  pub opendir : List ℕ → Option (List (List ℕ))

-- a line of output: the level, the name and the number of the inode
abbrev pub Line : Type 0
Line = ℕ × List ℕ × ℕ

pub record Walk : Type 0 where
  pub stack : List Item
  pub counters : Counters
  pub printed : List Line

abbrev pub join_path : List ℕ → List ℕ → List ℕ
join_path base file = base ++ 47 ∷ file

abbrev pub is_dir : Kind → Bool
is_dir k = elim k [
  | regular ↦ false
  | dir ↦ true
  | block ↦ false
  | character ↦ false
  | fifo ↦ false
  | slink ↦ false
  | sock ↦ false
]

-- `myfunc` for FTW_NS: the message leaves the buffer of `err_doit` if it is too long.
unfoldable pub stat_error : Files → (path : List ℕ) → Outcome (Unit {0})
stat_error f path = do
  (events, ending) ← err_ret (f.error_text path) (codes "stat error for " ++ path)
  done tt

unfoldable pub proc_entry : Files → (level : ℕ) (curr_path curr_file : List ℕ) → Walk → Outcome Walk
unfolding myfunc
proc_entry f level curr_path curr_file w =
    let path = join_path curr_path curr_file in
    elim (f.lstat path) [
      | none ↦ do stat_error f path; done w
      | some st ↦
          if is_dir st.kind
          then done (record w {
            counters = myfunc dir w.counters;
            stack = (path, level, st.st_ino) ∷ w.stack;
          })
          else done (record w {
            counters = myfunc st.kind w.counters;
            printed = w.printed ++ (level, curr_file, st.st_ino) ∷ [];
          })
    ]

-- `.` and `..`
unfoldable pub is_dots : List ℕ → Bool
is_dots [] = false
is_dots (a ∷ []) = a == 46
is_dots (a ∷ b ∷ []) = a == 46 && b == 46
is_dots (a ∷ b ∷ c ∷ cs) = false

-- the loop of `proc_dir`
unfoldable pub proc_names :
    Files → (level : ℕ) (path : List ℕ) → List (List ℕ) → Walk → Outcome Walk
unfolding proc_entry is_dots
proc_names f level path [] w = done w
proc_names f level path (name ∷ names) w = do
  w' ← if is_dots name then done w else proc_entry f level path name w
  proc_names f level path names w'

unfoldable pub proc_dir : Files → Item → Walk → Outcome Walk
unfolding proc_names
proc_dir f (path, level, ino) w = elim (f.opendir path) [
  | none ↦ done w
  | some names ↦ proc_names f (level + 1) path names w
]

-- what stands behind the last slash, or the whole
pub last_name : List ℕ → (since : List ℕ) → List ℕ
last_name [] since = since
last_name (b ∷ bs) since = if b == 47 then last_name bs bs else last_name bs since

-- the loop of `myftw_n` with `fuel` rounds
unfoldable pub walk : Files → (fuel : ℕ) → Walk → Outcome Walk
unfolding proc_dir last_name
walk f zero w = elim w.stack [ [] ↦ done w | n ∷ ns ↦ out_of_fuel ]
walk f (suc fuel) w = elim w.stack [
  | [] ↦ done w
  | n ∷ ns ↦ do
    w' ←
        proc_dir f n
          (record w { stack = ns; printed = w.printed ++ (n.1, last_name n.0 n.0, n.2) ∷ [] })
    walk f fuel w'
]

-- The path is copied into an array of 257 bytes. The result is EXIT_FAILURE, or `true` of the
-- `pop_mode` of the stack: both are 1.
unfoldable pub myftw_n : Files → (fuel : ℕ) → (pathname : List ℕ) → Outcome (ℕ × Walk)
unfolding walk
myftw_n f fuel pathname = do
  within (length pathname + 1) 257
  elim (f.lstat pathname) [
    | none ↦ do
      stat_error f pathname
      done (1, record { stack = []; counters = no_files; printed = [] })
    | some st ↦ do
      w ←
          walk f fuel
            (record { stack = (pathname, 0, st.st_ino) ∷ []; counters = no_files; printed = [] })
      done (1, w)
  ]

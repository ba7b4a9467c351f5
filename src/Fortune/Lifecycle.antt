-- ===== src/Fortune/Lifecycle.antt =====
-- Loading and unloading the modules of os_02/lab_04/src/part_02/fort_proc.c, fort_seq.c and
-- temp/procfd_exam.c. Each
-- function lists in order what it asks of the kernel; the answers of the requests that can fail are
-- arguments.
use operating_sys.Base.{
  ◌≡◌, refl, Bool, true, false, not, ◌&&◌, Option, none, some, List, [], ◌∷◌, ◌++◌, arith,
  if◌then◌else◌,
}
use operating_sys.Base.Outcome.{ℤ, pos, minus}

pub data Call : Type 0 where
  vmalloc : Call
  vfree : Call
  clear_pot : Call
  proc_mkdir : Call
  proc_create : Call
  proc_symlink : Call
  remove_symlink : Call
  remove_file : Call
  remove_dir : Call
  clear_indices : Call

-- What the module holds: the pointers that are not NULL.
pub record Held : Type 0 where
  pub pot : Bool
  pub dir : Bool
  pub file : Bool
  pub slink : Bool

abbrev pub held : Bool → Bool → Bool → Bool → Held
held p d f s = record { pot = p; dir = d; file = f; slink = s }

-- `answers` says which of the requests are granted.
abbrev pub Answers : Type 0
Answers = Held

-- `cleanup_proc_module`, at the pointers as they stand
pub cleanup_proc_module : Held → List Call
cleanup_proc_module h =
    (if h.pot then vfree ∷ [] else [])
    ++ ((if h.slink then remove_symlink ∷ [] else [])
        ++ ((if h.file then remove_file ∷ [] else []) ++ (if h.dir then remove_dir ∷ [] else [])))

pub init_proc_module : Answers → ℤ × List Call
unfolding cleanup_proc_module
init_proc_module a =
    if not a.pot
    then (minus 12, vmalloc ∷ [])
    else if not a.dir
    then (minus 12, vmalloc ∷ proc_mkdir ∷ cleanup_proc_module (held true false false false))
    else if not a.file
    then (
      minus 12,
      vmalloc ∷ proc_mkdir ∷ proc_create ∷ cleanup_proc_module (held true true false false),
    )
    else if not a.slink
    then (
      minus 12,
      vmalloc
          ∷ proc_mkdir
          ∷ proc_create
          ∷ proc_symlink
          ∷ cleanup_proc_module (held true true true false),
    )
    else (pos 0, vmalloc ∷ proc_mkdir ∷ proc_create ∷ proc_symlink ∷ clear_indices ∷ clear_pot ∷ [])

-- the same of fort_seq.c
pub cleanup_seq_module : Held → List Call
cleanup_seq_module h =
    (if h.pot then vfree ∷ [] else [])
    ++ ((if h.slink then remove_symlink ∷ [] else [])
        ++ ((if h.file then remove_file ∷ [] else []) ++ (if h.dir then remove_dir ∷ [] else [])))

pub init_seq_module : Answers → ℤ × List Call
unfolding cleanup_seq_module
init_seq_module a =
    if not a.pot
    then (minus 12, vmalloc ∷ [])
    else if not a.dir
    then (
      minus 12,
      vmalloc ∷ clear_pot ∷ proc_mkdir ∷ cleanup_seq_module (held true false false false),
    )
    else if not a.file
    then (
      minus 12,
      vmalloc
          ∷ clear_pot
          ∷ proc_mkdir
          ∷ proc_create
          ∷ cleanup_seq_module (held true true false false),
    )
    else if not a.slink
    then (
      minus 12,
      vmalloc
          ∷ clear_pot
          ∷ proc_mkdir
          ∷ proc_create
          ∷ proc_symlink
          ∷ cleanup_seq_module (held true true true false),
    )
    else (pos 0, vmalloc ∷ clear_pot ∷ proc_mkdir ∷ proc_create ∷ proc_symlink ∷ clear_indices ∷ [])

-- The effect of the calls on what is held. Clearing a pot that is not held is a fault, and so is
-- giving back what is not held; `none` stands for both.
unfoldable pub after : Answers → List Call → Held → Option Held
after a [] h = some h
after a (vmalloc ∷ cs) h = after a cs (record h { pot = a.pot })
after a (proc_mkdir ∷ cs) h = after a cs (record h { dir = a.dir })
after a (proc_create ∷ cs) h = after a cs (record h { file = a.file })
after a (proc_symlink ∷ cs) h = after a cs (record h { slink = a.slink })
after a (clear_indices ∷ cs) h = after a cs h
after a (clear_pot ∷ cs) h = let rest = after a cs h in if h.pot then rest else none
after a (vfree ∷ cs) h =
    let rest = after a cs (record h { pot = false }) in if h.pot then rest else none
after a (remove_symlink ∷ cs) h =
    let rest = after a cs (record h { slink = false }) in if h.slink then rest else none
after a (remove_file ∷ cs) h =
    let rest = after a cs (record h { file = false }) in if h.file then rest else none
after a (remove_dir ∷ cs) h =
    let rest = after a cs (record h { dir = false }) in if h.dir then rest else none

abbrev pub all_granted : Answers → Bool
all_granted a = a.pot && (a.dir && (a.file && a.slink))

abbrev pub nothing : Held
nothing = held false false false false

abbrev pub everything : Held
everything = held true true true true

-- Whichever requests the kernel grants, the load of fort_proc.c returns 0 if and only if all are
-- granted; it then holds everything, and an unload gives it all back. If it returns an error it
-- has given back whatever it was granted. Nothing is given back that is not held.
pub init_proc_module-after :
    (a : Answers)
    → ((init_proc_module a).0 ≡ (if all_granted a then pos 0 else minus 12))
      × (after a (init_proc_module a).1 nothing
          ≡ some (if all_granted a then everything else nothing))
      × (after a (cleanup_proc_module everything) everything ≡ some nothing)
unfolding init_proc_module cleanup_proc_module after
init_proc_module-after a = (ground arith, ground arith, refl)

-- The same of fort_seq.c, which clears the pot before it makes the entries under /proc.
pub init_seq_module-after :
    (a : Answers)
    → ((init_seq_module a).0 ≡ (if all_granted a then pos 0 else minus 12))
      × (after a (init_seq_module a).1 nothing
          ≡ some (if all_granted a then everything else nothing))
      × (after a (cleanup_seq_module everything) everything ≡ some nothing)
unfolding init_seq_module cleanup_seq_module after
init_seq_module-after a = (ground arith, ground arith, refl)

-- `procfs4_init` of temp/procfd_exam.c as its requests, in order
pub procfs4_init : Answers → ℤ × List Call
procfs4_init a =
    if not a.file
    then (minus 12, proc_create ∷ vmalloc ∷ remove_file ∷ [])
    else (pos 0, proc_create ∷ clear_indices ∷ [])

-- The call of `vfree` is commented out.
pub procfs4_exit : List Call
procfs4_exit = remove_file ∷ []

-- The module holds its entry under /proc and no pot after a load that returns 0, and the unload
-- gives the entry back. A load that fails removes the entry that it did not get, and would keep the
-- pot that it asked for instead.
pub procfs4_init-after :
    (a : Answers)
    → ((procfs4_init a).0 ≡ (if a.file then pos 0 else minus 12))
      × (after a (procfs4_init a).1 nothing
          ≡ (if a.file then some (held false false true false) else none))
      × (after a procfs4_exit (held false false true false) ≡ some nothing)
      × (after a (proc_create ∷ vmalloc ∷ []) nothing ≡ some (held a.pot false a.file false))
unfolding procfs4_init procfs4_exit after
procfs4_init-after a = (ground arith, ground arith, refl, refl)

-- ===== src/Daemon/Lock.antt =====
-- `lockfile` and `already_running` of os_02/lab_01/daemonise.c: the lock on /var/run/daemon.pid.
use operating_sys.Base.{
  ℕ, ◌≡◌, refl, ◌≢◌, Bool, true, not, Option, none, some, List, [], ◌∷◌, ◌++◌, arith, ◌==◌,
  if◌then◌else◌, length, replicate,
}
use operating_sys.Base.Outcome.{Outcome, done, exited, ◌>>=◌}
use operating_sys.Base.Digits.{decimal}

-- The lock file: which process holds the write lock, and the bytes in it.
pub record LockFile : Type 0 where
  pub owner : Option ℕ
  pub content : List ℕ

-- What `fcntl(fd, F_SETLK, …)` answers a process, and the lock afterwards: it is refused (EAGAIN)
-- if another process holds the lock.
pub data Locked : Type 0 where
  granted : Locked
  refused : Locked

unfoldable pub lockfile : (pid : ℕ) → LockFile → Locked × LockFile
lockfile pid f = elim f.owner [
  | none ↦ (granted, record f { owner = some pid })
  | some o ↦ if o == pid then (granted, f) else (refused, f)
]

-- `close` by a process gives up its own lock on the file.
unfoldable pub close_lock : (pid : ℕ) → LockFile → LockFile
close_lock pid f = elim f.owner [
  | none ↦ f
  | some o ↦ if o == pid then record f { owner = none } else f
]

-- the file behind `ftruncate`, `sprintf` and `write`: the digits and their NUL
abbrev pub pid_text : ℕ → List ℕ
pid_text pid = decimal pid ++ 0 ∷ []

-- `opened` is whether `open` succeeds. The result is 1 if the daemon runs already.
unfoldable pub already_running : (pid : ℕ) (opened : Bool) → LockFile → Outcome (ℕ × LockFile)
unfolding lockfile close_lock
already_running pid opened f =
    if not opened
    then exited 1
    else (let (answer, g) = lockfile pid f in
        elim answer [
          | refused ↦ done (1, close_lock pid g)
          | granted ↦ done (0, close_lock pid (record g { content = pid_text pid }))
        ])

-- While another process holds the lock, the answer is 1 and the file is as it was.
pub already_running_held :
    (pid other : ℕ) (text : List ℕ)
    → other ≢ pid
    → already_running pid true (record { owner = some other; content = text })
      ≡ done (1, record { owner = some other; content = text })
unfolding already_running
already_running_held pid other text ne = ground arith

-- daemons that start one after the other and go on running, with the answers that they get
unfoldable pub start_all : List ℕ → LockFile → Outcome (List ℕ × LockFile)
start_all [] f = done ([], f)
start_all (pid ∷ pids) f = do
  (r, g) ← already_running pid true f
  (rs, h) ← start_all pids g
  done (r ∷ rs, h)

abbrev pub free_with : List ℕ → LockFile
free_with text = record { owner = none; content = text }

pub already_running_free :
    (pid : ℕ) (text : List ℕ)
    → already_running pid true (free_with text) ≡ done (0, free_with (pid_text pid))
unfolding already_running
already_running_free pid text = ground arith

-- The lock does not outlive the call that takes it, since the descriptor is closed: however many
-- daemons are started while none has ended, each is told that no other runs, and the lock is free
-- at the end.
pub start_all_unnoticed :
    (pids : List ℕ) (text : List ℕ)
    → (text' : List ℕ) × (start_all pids (free_with text)
        ≡ done (replicate (length pids) 0, free_with text'))
unfolding start_all
start_all_unnoticed [] text = (text, refl)
start_all_unnoticed (pid ∷ pids) text =
    let (text', ran) = start_all_unnoticed pids (pid_text pid) in
    (text', rw (already_running_free pid text, ran))

-- ===== src/Daemon/Start.antt =====
-- `main` of os_02/lab_01/daemonise.c: from the start of the program to the end of the daemon.
use operating_sys.Base.{
  ℕ, ◌≤◌, ◌≡◌, refl, ap, ◌∙◌, ◌≢◌, Bool, true, false, not, Option, none, some, List, [], ◌∷◌, ◌++◌,
  ◌==◌, if◌then◌else◌, All,
}
use operating_sys.Base.Outcome.{Outcome, done, exited, fault, ◌>>=◌}
use operating_sys.Daemon.Detach.{
  Fds, Limit, limit_number, in_child, Answers, Process, daemonize, daemonize_child,
}
use operating_sys.Daemon.Lock.{
  LockFile, already_running, pid_text, free_with, already_running_free, already_running_held,
}
use operating_sys.Daemon.Signals.{got_term, Thread, thr_fn, log_of, answers, sigterm, thr_fn_term}

-- `strrchr(argv[0], '/')`: the text behind the last slash, if there is one
unfoldable pub behind_slash : List ℕ → Option (List ℕ)
behind_slash [] = none
behind_slash (c ∷ cs) = elim (behind_slash cs) [
  | some name ↦ some name
  | none ↦ if c == 47 then some cs else none
]

-- the name under which the daemon logs
unfoldable pub cmd_of : List ℕ → List ℕ
unfolding behind_slash
cmd_of arg = elim (behind_slash arg) [ none ↦ arg | some name ↦ name ]

-- What the system answers `main`: those of `daemonize`, whether the lock file opens and SIGHUP gets
-- its default back, and the error numbers of the mask and of the thread, 0 for none.
pub record Given : Type 0 where
  pub detaching : Answers
  pub lock_opens : Bool
  pub hup_restored : Bool
  pub mask_error : ℕ
  pub thread_error : ℕ

-- Up to the loop: the process and the lock file. The message about SIGHUP takes an argument that
-- the call of `err_quit` does not give.
unfoldable pub set_up : Given → (pid : ℕ) → Process → LockFile → Outcome (Process × LockFile)
set_up g pid p f = do
  q ← daemonize g.detaching p
  (running, f') ← already_running pid g.lock_opens f
  if not (running == 0)
      then exited 1
      else if not g.hup_restored
      then fault
      else if not (g.mask_error == 0)
      then exited 1
      else if not (g.thread_error == 0)
      then exited 1
      else done (record q { ignores_hup = false }, f')

-- The loop runs until the thread, which gets `signals`, ends the process.
pub record Running : Type 0 where
  pub process : Process
  pub lock : LockFile
  pub thread : Thread

unfoldable pub main :
    Given → (pid : ℕ) → Process → LockFile → (signals : List (Option ℕ)) → Outcome Running
unfolding set_up thr_fn
main g pid p f signals = do
  ready ← set_up g pid p f
  done (record { process = ready.0; lock = ready.1; thread = thr_fn signals [] })

-- Every request is granted.
abbrev pub granted : Limit → Given
granted l = record {
  detaching = record {
    limit = some l;
    forked = in_child;
    hup_ignored = true;
    root_entered = true;
    null_opened = true;
  };
  lock_opens = true;
  hup_restored = true;
  mask_error = 0;
  thread_error = 0;
}

-- A process that has become a daemon.
abbrev pub daemon : Fds → Process
daemon fds = record {
  fds = fds;
  umask = 0;
  session_leader = true;
  ignores_hup = false;
  in_root = true;
}

main_ready :
    (l : Limit) (pid : ℕ) (p : Process) (text : List ℕ) (signals : List (Option ℕ))
    → 3 ≤ limit_number l
    → (fds : Fds) × (main (granted l) pid p (free_with text) signals
        ≡ done (record {
          process = daemon fds;
          lock = free_with (pid_text pid);
          thread = thr_fn signals [];
        }))
unfolding main set_up
main_ready l pid p text signals three =
    let (fds, ran, open_fds) = daemonize_child l p three in
    (fds, rw (ran, already_running_free pid text) refl)

main_held :
    (l : Limit) (pid other : ℕ) (p : Process) (text : List ℕ) (signals : List (Option ℕ))
    → 3 ≤ limit_number l
    → other ≢ pid
    → main (granted l) pid p (record { owner = some other; content = text }) signals ≡ exited 1
unfolding main set_up
main_held l pid other p text signals three ne =
    let (fds, ran, open_fds) = daemonize_child l p three in
    rw (ran, already_running_held pid other text ne) refl

-- With every request granted and a limit of at least three descriptors: a daemon that finds the
-- lock held by another process ends with status 1; but a second one that is started after the first
-- finds the lock free and runs beside it. Both log their signals in order, and SIGTERM ends the one
-- that gets it with status 0.
pub main_again :
    (l : Limit) (pid pid' other : ℕ) (p q : Process) (text : List ℕ) (ss : List ℕ)
    (rest : List (Option ℕ))
    → 3 ≤ limit_number l
    → other ≢ pid
    → All (λ s. s ≢ sigterm) ss
    → (main (granted l) pid p (record { owner = some other; content = text }) rest ≡ exited 1)
      × ((fds : Fds) × (main (granted l) pid p (free_with text) (answers ss)
            ≡ done (record {
              process = daemon fds;
              lock = free_with (pid_text pid);
              thread = record { status = none; log = log_of ss };
            })))
      × ((fds : Fds) × (main
              (granted l)
              pid'
              q
              (free_with (pid_text pid))
              (answers ss ++ some sigterm ∷ rest)
            ≡ done (record {
              process = daemon fds;
              lock = free_with (pid_text pid');
              thread = record { status = some 0; log = log_of ss ++ got_term ∷ [] };
            })))
main_again l pid pid' other p q text ss rest three ne others =
    let (fds1, first) = main_ready l pid p text (answers ss) three in
    let (fds2, second) =
      main_ready l pid' q (pid_text pid) (answers ss ++ some sigterm ∷ rest) three in
    let (runs, ends) = thr_fn_term ss rest others in
    (
      main_held l pid other p text rest three ne,
      (
        fds1,
        first
            ∙ ap
                (λ t.
                  done
                    (record { process = daemon fds1; lock = free_with (pid_text pid); thread = t }))
                runs,
      ),
      (
        fds2,
        second
            ∙ ap
                (λ t.
                  done (record {
                    process = daemon fds2;
                    lock = free_with (pid_text pid');
                    thread = t;
                  }))
                ends,
      ),
    )

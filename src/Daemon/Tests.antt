-- ===== src/Daemon/Tests.antt =====
-- The daemon at concrete inputs.
use operating_sys.Base.{ℕ, ◌≡◌, refl, true, false, ◌&&◌, ◌||◌, some, [], ◌∷◌, arith, ltb, leb}
use operating_sys.Base.Outcome.{done}
use operating_sys.Base.Digits.{decimal}
use operating_sys.Daemon.Detach.{
  Fds, is_open, at_most, in_child, Process, daemonize, daemonize_child,
}
use operating_sys.Daemon.Lock.{
  already_running, start_all, free_with, already_running_held, pid_text,
}
use operating_sys.Base.{none, ◌++◌}
use operating_sys.Base.Outcome.{exited}
use operating_sys.Base.Texts.{codes}
use operating_sys.Daemon.Signals.{got_term, log_of}
use operating_sys.Daemon.Start.{cmd_of, granted, daemon, main, main_again}

-- a shell's child with a fourth descriptor open, and one above the limit
abbrev before : Process
before = record {
  fds = true ∷ true ∷ true ∷ true ∷ false ∷ true ∷ [];
  umask = 18;
  session_leader = false;
  ignores_hup = false;
  in_root = false;
}

daemonize_child_example :
    (fds : Fds) × (daemonize
        (record {
          limit = some (at_most 5);
          forked = in_child;
          hup_ignored = true;
          root_entered = true;
          null_opened = true;
        })
        before
      ≡ done (record {
        fds = fds;
        umask = 0;
        session_leader = true;
        ignores_hup = true;
        in_root = true;
      }))
    × ((i : ℕ) → is_open fds i ≡ (ltb i 3 || (leb 5 i && is_open before.fds i)))
daemonize_child_example = daemonize_child (at_most 5) before (omega arith)

already_running_held_example :
    already_running 7 true (record { owner = some 4; content = b'4' ∷ 0 ∷ [] })
    ≡ done (1, record { owner = some 4; content = b'4' ∷ 0 ∷ [] })
already_running_held_example = already_running_held 7 4 (b'4' ∷ 0 ∷ []) (omega arith)

cmd_of_runs :
    (cmd_of (codes "/usr/sbin/lock") ≡ codes "lock") × (cmd_of (codes "lock") ≡ codes "lock")
unfolding cmd_of
cmd_of_runs = (refl, refl)

main_again_example :
    (main (granted (at_most 5)) 7 before (record { owner = some 4; content = [] }) [] ≡ exited 1)
    × ((fds : Fds) × (main (granted (at_most 5)) 7 before (free_with []) (some 1 ∷ [])
          ≡ done (record {
            process = daemon fds;
            lock = free_with (pid_text 7);
            thread = record { status = none; log = log_of (1 ∷ []) };
          })))
    × ((fds : Fds) × (main
            (granted (at_most 5))
            12
            before
            (free_with (pid_text 7))
            (some 1 ∷ some 15 ∷ [])
          ≡ done (record {
            process = daemon fds;
            lock = free_with (pid_text 12);
            thread = record { status = some 0; log = log_of (1 ∷ []) ++ got_term ∷ [] };
          })))
main_again_example =
    main_again (at_most 5) 7 12 4 before before [] (1 ∷ []) [] (omega arith) (omega arith)
      (ground arith)

start_all_runs :
    start_all (7 ∷ 12 ∷ []) (free_with []) ≡ done (0 ∷ 0 ∷ [], free_with (b'1' ∷ b'2' ∷ 0 ∷ []))
unfolding start_all already_running decimal
start_all_runs = refl

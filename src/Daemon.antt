-- ===== src/Daemon.antt =====
-- The daemon, os_02/lab_01/daemonise.c: how it detaches itself (the child Detach), how it makes
-- sure that it is the only one (Lock), the thread that handles its signals (Signals), and `main`
-- (Start). System calls follow POSIX: the lowest free descriptor is handed out, and closing any
-- descriptor of a file gives up the process's record locks on that file.
pub mod Detach
pub mod Lock
pub mod Signals
pub mod Start
mod Tests

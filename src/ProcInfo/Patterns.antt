-- ===== src/ProcInfo/Patterns.antt =====
-- The patterns of os_02/lab_04/src/part_01/main.h: what stands before the token, and behind it. A
-- pattern of WITH_DESCR makes the token 20 characters wide and one of STATM_PATTERNS 8; a
-- newline ends each.
use mathlib.Core.List.{List, [], ◌∷◌}
use Prim.Native.String.{String}

abbrev pub with_descr : List (String × String)
with_descr =
    ("[1] pid                    ", " (The process ID).")
    ∷ ("[2] comm                   ", " (The filename of the executable, in parentheses).")
    ∷ ("[3] state                  ", " (one of the characters indicating process state).")
    ∷ ("[4] ppid                   ", " (The PID of the parent of this process).")
    ∷ ("[5] pgrp                   ", " (The process group ID of the process).")
    ∷ ("[6] session                ", " (The session ID of the process).")
    ∷ ("[7] tty_nr                 ", " (The controlling terminal of the process).")
    ∷ (
      "[8] tpgid                  ",
      " (The ID of the foreground process group of the controlling terminal of the process).",
    )
    ∷ ("[9] flags                  ", " (The kernel flags word of the process).")
    ∷ (
      "[10] minflt                ",
      " (The number of minor faults the process has made which have not required loading a memory page from disk).",
    )
    ∷ (
      "[11] cminflt               ",
      " (The number of minor faults that the process's waited-for children have made).",
    )
    ∷ (
      "[12] majflt                ",
      " (The number of major faults the process has made which have required  loading  a  memory  page from disk).",
    )
    ∷ (
      "[13] cmajflt               ",
      " (The number of major faults that the process's waited-for children have made).",
    )
    ∷ (
      "[14] utime                 ",
      " (Amount of time that this process has been scheduled in user mode, measured in clock ticks).",
    )
    ∷ (
      "[15] stime                 ",
      " (Amount of time that this process has been scheduled in kernel mode, measured in  clock  ticks).",
    )
    ∷ (
      "[16] cutime                ",
      " (Amount of time that this process's waited-for children have been scheduled in user mode, measured in clock ticks).",
    )
    ∷ (
      "[17] cstime                ",
      " (Amount of time that this process's waited-for children have been scheduled in kernel mode, measured in clock ticks).",
    )
    ∷ ("[18] priority              ", " (For processes running a real-time scheduling policy).")
    ∷ (
      "[19] nice                  ",
      " (The nice value (see setpriority(2)), a value in the range 19 (low priority) to -20 (high priority)).",
    )
    ∷ (
      "[20] num_threads           ",
      " (Number of threads in this process (since Linux 2.6). Before kernel 2.6, this field was hardcoded to 0 as a placeholder for an earlier removed field.",
    )
    ∷ (
      "[21] itrealvalue           ",
      " (The time in jiffies before the next SIGALRM is sent to the process due to an interval timer).",
    )
    ∷ ("[22] starttime             ", " (The time the process started after system boot).")
    ∷ ("[23] vsize                 ", " (Virtual memory size in bytes).")
    ∷ (
      "[24] rss                   ",
      " (Resident Set Size: number of pages the process has in real memory).",
    )
    ∷ ("[25] rsslim                ", " (Current soft limit in bytes on the rss of the process).")
    ∷ ("[26] startcode             ", " (The address above which program text can run).")
    ∷ ("[27] endcode               ", " (The address below which program text can run).")
    ∷ ("[28] startstack            ", " (The address of the start (i).e., bottom) of the stack.")
    ∷ (
      "[29] kstkesp               ",
      " (The current value of ESP (stack pointer), as found in the kernel stack page for the process).",
    )
    ∷ ("[30] kstkeip               ", " (The current EIP (instruction pointer)).")
    ∷ (
      "[31] signal                ",
      " (The  bitmap of pending signals, displayed as a decimal number).",
    )
    ∷ (
      "[32] blocked               ",
      " (The bitmap of blocked signals, displayed as a decimal number).",
    )
    ∷ (
      "[33] sigignore             ",
      " (The  bitmap of ignored signals, displayed as a decimal number).",
    )
    ∷ (
      "[34] sigcatch              ",
      " (The bitmap of caught signals, displayed as a decimal number).",
    )
    ∷ ("[35] wchan                 ", " (This is the \"channel\" in which the process is waiting).")
    ∷ ("[36] nswap                 ", " (Number of pages swapped (not maintained)).")
    ∷ ("[37] cnswap                ", " (Cumulative nswap for child processes (not maintained)).")
    ∷ (
      "[38] exit_signal           ",
      " (since Linux 2.1.22) (Signal to be sent to parent when we die).",
    )
    ∷ ("[39] processor             ", " (since Linux 2.2.8) (CPU number last executed on).")
    ∷ (
      "[40] rt_priority           ",
      " (since Linux 2.5.19) (Real-time scheduling priority, a number in the range 1 to 99 for processes scheduled under a real-time policy, or 0, for non-real-time processes).",
    )
    ∷ ("[41] policy                ", " (since Linux 2.5.19) (Scheduling policy).")
    ∷ (
      "[42] delayacct_blkio_ticks ",
      " (since Linux 2.6.18) (Aggregated block I/O delays, measured in clock ticks (centiseconds)).",
    )
    ∷ (
      "[43] guest_time            ",
      " (since Linux 2.6.24) (Guest time of the process (time spent running a virtual CPU for a guest operating system), measured in clock ticks).",
    )
    ∷ (
      "[44] cguest_time           ",
      " (since Linux 2.6.24) (Guest time of the process's children, measured in clock ticks).",
    )
    ∷ (
      "[45] start_data            ",
      " (since Linux 3.3) (Address above which program initialized and uninitialized (BSS) data are placed).",
    )
    ∷ (
      "[46] end_data              ",
      " (since Linux 3.3) (Address below which program initialized and uninitialized (BSS) data are placed).",
    )
    ∷ (
      "[47] start_brk             ",
      " (since Linux 3.3) (Address above which program heap can be expanded with brk(2)).",
    )
    ∷ (
      "[48] arg_start             ",
      " (since Linux 3.5) (Address above which program command-line arguments (argv) are placed).",
    )
    ∷ (
      "[49] arg_end               ",
      " (since Linux 3.5) (Address below program command-line arguments (argv) are placed).",
    )
    ∷ (
      "[50] env_start             ",
      " (since Linux 3.5) (Address above which program environment is placed).",
    )
    ∷ (
      "[51] env_end               ",
      " (since Linux 3.5) (Address below which program environment is placed).",
    )
    ∷ (
      "[52] exit_code             ",
      " (since Linux 3.5) (The thread's exit status in the form reported by waitpid(2)).",
    )
    ∷ []

abbrev pub statm_patterns : List (String × String)
statm_patterns =
    ("size     ", "  (1)")
    ∷ ("resident ", "  (2)")
    ∷ ("shared   ", "  (3)")
    ∷ ("text     ", "  (4)")
    ∷ ("lib      ", "  (5)")
    ∷ ("data     ", "  (6)")
    ∷ ("dt       ", "  (7)")
    ∷ []

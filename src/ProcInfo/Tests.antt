-- ===== src/ProcInfo/Tests.antt =====
-- Runs of the model of os_02/lab_04/src/part_01/main.c, and its theorems at concrete inputs.
use operating_sys.Base.{ℕ, ◌≡◌, refl, Option, none, some, List, [], ◌∷◌, ◌++◌, arith, if◌then◌else◌}
use operating_sys.Base.Outcome.{done}
use operating_sys.Base.Texts.{codes, same_text}
use operating_sys.ProcInfo.{Proc, check_path, heading, two_lines, print_args}
use operating_sys.ProcInfo.Patterns.{with_descr, statm_patterns}
use operating_sys.ProcInfo.Buffers.{zeros}
use operating_sys.ProcInfo.Arguments.{without_ends, print_args-without_ends}
use operating_sys.ProcInfo.Fields.{tokens, cut_token, stat_info, statm_info}
use operating_sys.ProcInfo.Fields.Tokens.{rows, stat_info-rows}
use operating_sys.ProcInfo.Links.{links_shown, fd_info-links_shown}
use operating_sys.ProcInfo.Report.{fd_info, maps_info}
use operating_sys.ProcInfo.Failures.{maps_info-text}

-- the directory `/p` of a process
abbrev file_of : List ℕ → Option (List ℕ)
file_of path =
    if same_text path (codes "/p/cmdline")
    then some (b'a' ∷ 0 ∷ b'b' ∷ b'c' ∷ 0 ∷ [])
    else if same_text path (codes "/p/environ")
    then some (b'x' ∷ b'=' ∷ 0 ∷ [])
    else if same_text path (codes "/p/stat")
    then some (codes "7 (a b) S")
    else if same_text path (codes "/p/statm")
    then some (codes "21 3")
    else if same_text path (codes "/p/maps")
    then some (codes "7f-80 r")
    else none

abbrev link_of : List ℕ → Option (List ℕ)
link_of path =
    if same_text path (codes "/p/fd/0")
    then some (codes "/dev/pts/0")
    else if same_text path (codes "/p/fd/1")
    then some (codes "/tmp")
    else none

abbrev process : Proc
process = record {
  file = file_of;
  link = link_of;
  names = λ path. some (codes "." ∷ codes ".." ∷ codes "0" ∷ codes "1" ∷ codes "2" ∷ []);
}

check_path_runs : (check_path (codes "/proc/1/") ≡ codes "/proc/1") × (check_path [] ≡ [])
unfolding check_path
check_path_runs = (refl, refl)

two_blocks :
    without_ends 4 0 (b'a' ∷ 0 ∷ b'b' ∷ 0 ∷ b'c' ∷ b'd' ∷ 0 ∷ [])
    ≡ b'a' ∷ 10 ∷ b'b' ∷ b'c' ∷ b'd' ∷ []
unfolding without_ends
two_blocks = refl

print_args-without_ends_example :
    print_args 4 8 (zeros 4) (b'a' ∷ 0 ∷ b'b' ∷ 0 ∷ b'c' ∷ b'd' ∷ 0 ∷ [])
    ≡ done (without_ends 4 0 (b'a' ∷ 0 ∷ b'b' ∷ 0 ∷ b'c' ∷ b'd' ∷ 0 ∷ []))
print_args-without_ends_example =
    print_args-without_ends 3 8 (zeros 4) (b'a' ∷ 0 ∷ b'b' ∷ 0 ∷ b'c' ∷ b'd' ∷ 0 ∷ []) refl
      (omega arith)

-- A command name with a space in it is two fields.
spaces_in_name : tokens (codes "7 (a b) S") ≡ codes "7" ∷ codes "(a" ∷ codes "b)" ∷ codes "S" ∷ []
unfolding tokens cut_token
spaces_in_name = refl

stat_info-rows_example :
    (stat_info 64 16 process (codes "/p")
      ≡ done (
          heading two_lines (codes "/p/stat")
          ++ rows 20 with_descr (codes "7" ∷ codes "(a" ∷ codes "b)" ∷ codes "S" ∷ [])))
    × (statm_info 64 16 process (codes "/p")
        ≡ done (
            heading two_lines (codes "/p/statm")
            ++ rows 8 statm_patterns (codes "21" ∷ codes "3" ∷ [])))
stat_info-rows_example =
    stat_info-rows 64 16 process (codes "/p") (codes "7" ∷ codes "(a" ∷ codes "b)" ∷ codes "S" ∷ [])
      (codes "21" ∷ codes "3" ∷ []) (ground arith) (ground arith) (omega arith) (omega arith)
      (omega arith) (omega arith) (omega arith) (omega arith) (omega arith) (omega arith) refl refl

-- The tail of the first link stands behind the second, and the third shows the second again.
links_shown_run :
    links_shown process (codes "/p/fd") (codes "." ∷ codes "0" ∷ codes "1" ∷ codes "2" ∷ []) []
    ≡ codes "0 -> /dev/pts/0"
      ++ (10 ∷ codes "1 -> /tmp/pts/0" ++ (10 ∷ codes "2 -> /tmp/pts/0" ++ 10 ∷ []))
unfolding links_shown
links_shown_run = refl

fd_info-links_shown_example :
    fd_info 64 process (codes "/p")
    ≡ done (
        heading two_lines (codes "/p/fd")
        ++ links_shown process
            (codes "/p/fd")
            (codes "." ∷ codes ".." ∷ codes "0" ∷ codes "1" ∷ codes "2" ∷ [])
            [])
fd_info-links_shown_example =
    fd_info-links_shown 64 process (codes "/p")
      (codes "." ∷ codes ".." ∷ codes "0" ∷ codes "1" ∷ codes "2" ∷ []) (omega arith) (omega arith)
      refl (ground arith)

maps_info-text_example :
    maps_info 64 16 process (codes "/p")
    ≡ done (heading two_lines (codes "/p/maps") ++ codes "7f-80 r")
maps_info-text_example =
    maps_info-text 64 16 process (codes "/p") (codes "7f-80 r") (ground arith) (omega arith)
      (omega arith) (omega arith) (omega arith) refl

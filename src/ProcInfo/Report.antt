-- ===== src/ProcInfo/Report.antt =====
-- The rest of os_02/lab_04/src/part_01/main.c: the lists of names, the texts of files, and `main`.
use operating_sys.Base.{
  ℕ, zero, suc, ◌+◌, Bool, ◌||◌, Option, none, some, List, [], ◌∷◌, ◌++◌, ◌==◌, if◌then◌else◌,
  length, take, drop, replicate,
}
use operating_sys.Base.Outcome.{
  Outcome, done, aborted, fault, out_of_fuel, ◌>>=◌, ◌>>◌, ℤ, pos, negsuc, within,
}
use operating_sys.Base.Memory.{overwrite, store_bytes, string_of}
use operating_sys.Base.Texts.{codes, same_text}
use operating_sys.ProcInfo.{
  Proc, check_path, print_path, heading, two_lines, open_file, cmdline_info, environ_info, cwd_info,
  exe_info, root_info,
}
use operating_sys.Pagemap.Maps.{Shown, PageFiles, pagemap_info}
use operating_sys.ProcInfo.Fields.{stat_info, statm_info}

-- The loop of `maps_info` with `fuel` rounds. The NUL behind a full buffer is outside of it.
unfoldable pub print_chunks : (bufsiz fuel : ℕ) (buf rest : List ℕ) → Outcome (List ℕ)
unfolding store_bytes
print_chunks bufsiz zero buf rest = out_of_fuel
print_chunks bufsiz (suc fuel) buf rest =
    let chunk = take bufsiz rest in
    let filled = overwrite buf chunk in
    let later = λ (text : List ℕ). print_chunks bufsiz fuel text (drop bufsiz rest) in
    if length chunk == 0 then done [] else (do
      text ← store_bytes filled (length chunk) (0 ∷ [])
      out ← string_of text
      more ← later text
      done (out ++ more))

unfoldable pub maps_info : (bufsiz fuel : ℕ) → Proc → (proc_path : List ℕ) → Outcome (List ℕ)
unfolding print_chunks
maps_info bufsiz fuel sys proc_path = do
  path ← print_path bufsiz 256 (proc_path ++ codes "/maps")
  bytes ← open_file sys path
  out ← print_chunks bufsiz fuel (replicate bufsiz 0) bytes
  done (heading two_lines path ++ out)

unfoldable pub comm_info : (bufsiz : ℕ) → Proc → (proc_path : List ℕ) → Outcome (List ℕ)
unfolding store_bytes
comm_info bufsiz sys proc_path = do
  path ← print_path bufsiz 256 (proc_path ++ codes "/comm")
  bytes ← open_file sys path
  let chunk = take bufsiz bytes
  let buf = overwrite (replicate bufsiz 0) chunk
  text ← if length chunk == 0 then done buf else store_bytes buf (length chunk) (0 ∷ [])
  out ← string_of text
  done (heading two_lines path ++ out)

-- the names `.` and `..`
abbrev pub is_dots : List ℕ → Bool
is_dots name = same_text name (codes ".") || same_text name (codes "..")

-- `readlink` into `buf`, which writes no NUL
abbrev pub read_link : (bufsiz : ℕ) → Option (List ℕ) → (buf : List ℕ) → List ℕ
read_link bufsiz none buf = buf
read_link bufsiz (some target) buf = overwrite buf (take bufsiz target)

abbrev pub arrow : List ℕ
arrow = 32 ∷ 45 ∷ 62 ∷ 32 ∷ []

-- The loop of `fd_info` over the names of the directory.
unfoldable pub print_links :
    (bufsiz : ℕ) → Proc → (file_path : List ℕ) → List (List ℕ) → (buf : List ℕ) → Outcome (List ℕ)
print_links bufsiz sys file_path [] buf = done []
print_links bufsiz sys file_path (name ∷ names) buf =
    let path = file_path ++ (47 ∷ name) in
    let read = read_link bufsiz (sys.link path) buf in
    let after = if is_dots name then buf else read in
    let later = print_links bufsiz sys file_path names after in
    if is_dots name then later else (do
      within (length path + 1) 512
      text ← string_of read
      more ← later
      done (name ++ (arrow ++ (text ++ (10 ∷ more)))))

-- `opendir`; the first `readdir` of a null pointer is a fault
abbrev pub open_dir : Proc → List ℕ → Outcome (List (List ℕ))
open_dir sys path = elim (sys.names path) [ none ↦ fault | some names ↦ done names ]

unfoldable pub fd_info : (bufsiz : ℕ) → Proc → (proc_path : List ℕ) → Outcome (List ℕ)
unfolding print_links
fd_info bufsiz sys proc_path = do
  path ← print_path bufsiz 256 (proc_path ++ codes "/fd")
  names ← open_dir sys path
  out ← print_links bufsiz sys path names (replicate bufsiz 0)
  done (heading two_lines path ++ out)

-- The loop of `task_info`. What it reads of the links is not printed.
unfoldable pub print_names : (file_path : List ℕ) → List (List ℕ) → Outcome (List ℕ)
print_names file_path [] = done []
print_names file_path (name ∷ names) =
    let later = print_names file_path names in
    if is_dots name then later else (do
      within (length (file_path ++ (47 ∷ name)) + 1) 512
      more ← later
      done (name ++ (10 ∷ more)))

unfoldable pub task_info : (bufsiz : ℕ) → Proc → (proc_path : List ℕ) → Outcome (List ℕ)
unfolding print_names
task_info bufsiz sys proc_path = do
  path ← print_path bufsiz 256 (proc_path ++ codes "/task")
  names ← open_dir sys path
  out ← print_names path names
  done (heading two_lines path ++ out)

-- The directory whose parts are shown.
abbrev pub link_ptr : List ℕ → List ℕ
link_ptr arg = if same_text arg (codes "self") then codes "/proc/self" else arg

-- The end of `main`: the status, what is printed, the text of result.txt, and below it the pages.
pub record Ended : Type 0 where
  pub status : ℤ
  pub printed : List ℕ
  pub text : List ℕ
  pub pages : List Shown

abbrev pub usage : List ℕ
usage = codes "Usage: app.exe /proc/[pid]"

-- The sections, in the order of `main`.
unfoldable pub report :
    (bufsiz fuel : ℕ) → Proc → PageFiles → (link_ptr : List ℕ) → Outcome (List ℕ × List Shown)
unfolding cmdline_info environ_info stat_info statm_info fd_info maps_info comm_info task_info
report bufsiz fuel sys page_files link_ptr = do
  cmdline ← cmdline_info bufsiz fuel sys link_ptr
  cwd ← cwd_info bufsiz sys link_ptr
  environ ← environ_info bufsiz fuel sys link_ptr
  stat ← stat_info bufsiz fuel sys link_ptr
  statm ← statm_info bufsiz fuel sys link_ptr
  fd ← fd_info bufsiz sys link_ptr
  exe ← exe_info bufsiz sys link_ptr
  root ← root_info bufsiz sys link_ptr
  maps ← maps_info bufsiz fuel sys link_ptr
  comm ← comm_info bufsiz sys link_ptr
  task ← task_info bufsiz sys link_ptr
  pages ← pagemap_info bufsiz fuel page_files link_ptr
  done (
    cmdline
        ++ (cwd
            ++ (environ
                ++ (stat ++ (statm ++ (fd ++ (exe ++ (root ++ (maps ++ (comm ++ task))))))))),
    pages,
  )

-- `opened` says whether result.txt can be opened; `assert` ends the program if not.
unfoldable pub main :
    (bufsiz fuel : ℕ) → Proc → PageFiles → (opened : Bool) (argv : List (List ℕ)) → Outcome Ended
unfolding report check_path
main bufsiz fuel sys page_files opened (program ∷ arg ∷ []) =
    if opened
    then (do
      result ← report bufsiz fuel sys page_files (link_ptr (check_path arg))
      done (record { status = pos 0; printed = []; text = result.0; pages = result.1 }))
    else aborted
main bufsiz fuel sys page_files opened [] =
    done (record { status = negsuc 0; printed = usage ++ 10 ∷ []; text = []; pages = [] })
main bufsiz fuel sys page_files opened (program ∷ []) =
    done (record { status = negsuc 0; printed = usage ++ 10 ∷ []; text = []; pages = [] })
main bufsiz fuel sys page_files opened (program ∷ arg ∷ more ∷ args) =
    done (record { status = negsuc 0; printed = usage ++ 10 ∷ []; text = []; pages = [] })

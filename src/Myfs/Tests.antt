-- ===== src/Myfs/Tests.antt =====
-- Runs of the model of os_02/lab_07/src/myfs.c.
use operating_sys.Base.{ℕ, false, Option, some, List, replicate}
use operating_sys.Myfs.{Answers}

abbrev slots : List (Option ℕ)
slots = replicate 12 (some 99)

abbrev refused : Answers
refused = record { ino = some 1; allocated = some 7; root_made = false; references = 0 }

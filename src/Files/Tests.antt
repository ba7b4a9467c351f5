-- ===== src/Files/Tests.antt =====
-- Runs of the programs of os_02/lab_05/src, and the theorems at concrete inputs.
use operating_sys.Base.{
  ℕ, zero, suc, ◌+◌, ◌*◌, ◌≤◌, ◌<◌, ◌≡◌, refl, ◌⊎◌, Option, none, some, List, [], ◌∷◌, ◌++◌, arith,
  length, get_elem?, drop,
}
use operating_sys.Base.Outcome.{done}
use operating_sys.Base.Family.{sum_over}
use operating_sys.Files.{write_byte, scan_char, main_01, write_letters, main_03}
use operating_sys.Files.Stream.{main_01_prints}
use operating_sys.Files.Shared
use operating_sys.Files.Shared.Once.{bag_of, printed_once}
use operating_sys.Files.Shared.Ends.{to_do, steps, steps_bounded}
use operating_sys.Files.Own
use operating_sys.Files.Own.{printed_by, printed_by-ended}
use operating_sys.Files.Race
use operating_sys.Files.Race.Letters.{Letter, written, letters_in_place}

abbrev counting : (n c : ℕ) → List ℕ
counting zero c = []
counting (suc n) c = c ∷ counting n (c + 1)

abbrev two_bytes : List ℕ
two_bytes = b'a' ∷ b'b' ∷ []

main_01_prints_example : main_01 (counting 26 65) 27 ≡ done (counting 26 65 ++ 10 ∷ [])
main_01_prints_example = main_01_prints (counting 26 65) 27 (omega arith)

main_03_short :
    main_03 (counting 15 48)
    ≡ b'b' ∷ b'd' ∷ b'f' ∷ b'h' ∷ b'j' ∷ b'l' ∷ b'n' ∷ b'p' ∷ b'r' ∷ b't' ∷ b'v' ∷ b'x' ∷ b'z' ∷ 61
      ∷ 62 ∷ []
unfolding main_03 write_letters write_byte
main_03_short = refl

abbrev one_byte : List ℕ
one_byte = 65 ∷ []

-- One thread that prints a file of one byte.
abbrev shared_run : (s : Shared.System) × Shared.Reach one_byte 1 s
unfolding scan_char
shared_run = (
  _,
  Shared.later
      (Shared.later
        (Shared.later Shared.start (Shared.pick 0 (omega arith) (Shared.scan {c = 65} refl)))
        (Shared.pick 0 (omega arith) Shared.print))
      (Shared.pick 0 (omega arith) (Shared.end_of_file refl)),
)

printed_once_example : bag_of shared_run.0.printed ≡ bag_of one_byte
unfolding shared_run
printed_once_example = printed_once shared_run.1 (omega arith) all
  where
    all : (i : ℕ) → i < 1 → shared_run.0.thread i ≡ Shared.ended
    all zero b = refl
    all (suc i) b = absurd (omega arith)

steps_bounded_example :
    steps shared_run.1
      + sum_over to_do 1 shared_run.0.thread
      + 2 * length (drop shared_run.0.offset one_byte)
    ≤ 2 * length one_byte + 1
steps_bounded_example = steps_bounded shared_run.1

-- One of two threads that read for themselves.
abbrev own_run : (s : Own.System) × Own.Reach one_byte 2 s
own_run = (
  _,
  Own.later
      (Own.later (Own.later Own.start (Own.pick 1 (omega arith) (Own.read {c = 65} refl)))
        (Own.pick 1 (omega arith) Own.write))
      (Own.pick 1 (omega arith) (Own.end_of_file refl)),
)

-- Both threads are created; then the second one writes to its end, `n` rounds.
abbrev both_created : (s : Race.System) × Race.Reach [] s
both_created = (
  _,
  Race.later
      (Race.later
        (Race.later (Race.later Race.start (Race.filled (omega arith) refl)) (Race.created refl))
        (Race.filled (omega arith) refl))
      (Race.created refl),
)

abbrev move_of :
    (s : Race.System) (t : Race.Thread)
    → Option ((f : List ℕ) × (n : ℕ) × (u : Race.Thread) × Race.Move s t f n u)
move_of s Race.absent = none
move_of s Race.opened = some (_, _, _, Race.enter)
move_of s (Race.writing c o) = some (_, _, _, Race.write)
move_of s (Race.stepping c o) = some (_, _, _, Race.step)
move_of s (Race.ended o) = none

abbrev moved_on :
    (r : (s : Race.System) × Race.Reach [] s) (i : ℕ)
    → Option ((f : List ℕ) × (n : ℕ) × (u : Race.Thread) × Race.Move r.0 (r.0.thread i) f n u)
    → (s : Race.System) × Race.Reach [] s
moved_on r i none = r
moved_on r i (some (f, n, u, mv)) = (_, Race.later r.1 (Race.moved i mv))

abbrev moves : (n i : ℕ) → (s : Race.System) × Race.Reach [] s → (s : Race.System) × Race.Reach [] s
moves zero i r = r
moves (suc n) i r = moves n i (moved_on r i (move_of r.0 (r.0.thread i)))

abbrev race_run : (s : Race.System) × Race.Reach [] s
race_run = moves 27 1 both_created

letters_in_place_example :
    (Letter race_run.0.file 0 12
      ⊎ ((get_elem? race_run.0.file 12 ≡ none) × (written (race_run.0.thread 1) ≤ 12)))
    × (13 ≤ 13 + 0)
letters_in_place_example = letters_in_place race_run.1 1 12

-- ===== src/Keyboard.antt =====
-- The keyboard of the interrupt modules: `get_ascii`, which os_02/lab_09/src/tasklet/tasklet.c and
-- os_02/lab_09/src/workseq/workseq.c hold in the same text. The two modules are children.
pub mod Decode
pub mod Tasklet
pub mod WorkQueue
mod Tests
use operating_sys.Base.{ℕ, ◌-◌, ◌/◌, ◌%◌, ◌^◌, Bool, ◌&&◌, List, [], ◌∷◌, leb, ◌==◌, if◌then◌else◌}
use operating_sys.Base.Outcome.{Outcome, done, char_at}

abbrev pub irq_line : ℕ
irq_line = 1

abbrev pub row1 : List ℕ
row1 = b'1' ∷ b'2' ∷ b'3' ∷ b'4' ∷ b'5' ∷ b'6' ∷ b'7' ∷ b'8' ∷ b'9' ∷ b'0' ∷ []

abbrev pub row2 : List ℕ
row2 = b'q' ∷ b'w' ∷ b'e' ∷ b'r' ∷ b't' ∷ b'y' ∷ b'u' ∷ b'i' ∷ b'o' ∷ b'p' ∷ []

abbrev pub row3 : List ℕ
row3 = b'a' ∷ b's' ∷ b'd' ∷ b'f' ∷ b'g' ∷ b'h' ∷ b'j' ∷ b'k' ∷ b'l' ∷ []

abbrev pub row4 : List ℕ
row4 = b'z' ∷ b'x' ∷ b'c' ∷ b'v' ∷ b'b' ∷ b'n' ∷ b'm' ∷ []

-- `scancode & ~SCANCODE_RELEASED_MASK`: bit 7 is taken out of the unsigned int, all others stay.
unfoldable pub clear_release : ℕ → ℕ
clear_release s = if s / 128 % 2 == 1 then s - 128 else s

-- The tests of `get_ascii` behind the mask, in their order.
unfoldable pub plain_ascii : ℕ → Outcome ℕ
plain_ascii s =
    if leb 0x02 s && leb s 0x0b
    then char_at row1 (s - 0x02)
    else if leb 0x10 s && leb s 0x19
    then char_at row2 (s - 0x10)
    else if leb 0x1e s && leb s 0x26
    then char_at row3 (s - 0x1e)
    else if leb 0x2c s && leb s 0x32
    then char_at row4 (s - 0x2c)
    else if s == 0x39
    then done b' '
    else if s == 0x1c
    then done 10
    else done b'?'

unfoldable pub get_ascii : ℕ → Outcome ℕ
unfolding clear_release plain_ascii
get_ascii scancode = plain_ascii (clear_release scancode)

-- ===== src/Semaphore/Buffer/Segment.antt =====
-- Where os_01/lab_05/01.c puts its variables in the shared segment: pointer arithmetic on `int *`
-- counts ints, and the offsets were meant in bytes.
use operating_sys.Base.{ℕ, ◌+◌, ◌*◌, ◌≤◌, ◌<◌, ◌↔◌, arith}

-- `sizeof(int)`, and `shm_size`
abbrev pub int_size : ℕ
int_size = 4

abbrev pub shm_size : ℕ
shm_size = (9 + 2) * int_size

-- the address of `p + n` for an `int *p`
abbrev pub int_pointer : (base n : ℕ) → ℕ
int_pointer base n = base + n * int_size

-- `shm_pos_prod`, `shm_pos_consum` and `shm_buffer`, for a segment at `base`
pub pos_prod_at : ℕ → ℕ
pos_prod_at base = base

pub pos_consum_at : ℕ → ℕ
pos_consum_at base = int_pointer base int_size

pub buffer_at : ℕ → ℕ
buffer_at base = int_pointer base (2 * int_size)

-- `&shm_buffer[i]`
pub slot_at : (base i : ℕ) → ℕ
unfolding buffer_at
slot_at base i = int_pointer (buffer_at base) i

-- The int at an address lies in the segment.
abbrev pub InSegment : (base address : ℕ) → Type 0
InSegment base address = (base ≤ address) × (address + int_size ≤ base + shm_size)

-- Both positions lie in the segment; of the slots of the buffer only the first three do, of the
-- nine that the program fills.
pub slot_at-InSegment :
    (base i : ℕ)
    → (InSegment base (pos_prod_at base) × InSegment base (pos_consum_at base))
      × (InSegment base (slot_at base i) ↔ (i < 3))
unfolding pos_prod_at pos_consum_at slot_at
slot_at-InSegment base i =
    ((omega arith, omega arith), (λ h. omega (arith, h.1), λ h. (omega arith, omega arith)))

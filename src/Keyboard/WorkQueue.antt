-- ===== src/Keyboard/WorkQueue.antt =====
-- os_02/lab_09/src/workseq/workseq.c: the interrupt handler stores the scan code and queues two
-- works, which print the key. What a function asks of the kernel is listed in order as calls, and
-- what the kernel answers is an argument.
pub mod Order
use operating_sys.Base.{
  ℕ, ◌+◌, ◌-◌, ◌^◌, ◌≤◌, ◌<◌, ◌≡◌, Bool, true, false, not, ◌&&◌, List, [], ◌∷◌, ◌++◌, arith, ltb,
  ◌==◌, if◌then◌else◌,
}
use operating_sys.Base.Outcome.{Outcome, done, ◌>>=◌, ℤ, pos, minus, nonzero}
use operating_sys.Keyboard.{irq_line, get_ascii, clear_release}
use operating_sys.Keyboard.Decode.{keys, find_key, find_key_above, get_ascii-find_key}

pub data Work : Type 0 where
  fir_work : Work
  sec_work : Work

pub data Call : Type 0 where
  request_irq : Call
  free_irq : Call
  create_workqueue : Call
  flush_workqueue : Call
  destroy_workqueue : Call
  init_work : Work → Call
  queue_work : Work → Call
  proc_create : Call
  remove_proc_entry : Call
  print_key : Work → (scancode char : ℕ) → Call
  print_text : Call

-- The static `char scancode` as the unsigned int that `get_ascii` is given: `char` is signed on the
-- machines that the module is built for, so a byte from 128 on is extended by ones.
abbrev pub sign_extend : ℕ → ℕ
sign_extend byte = if ltb byte 128 then byte else byte + (2 ^ 32 - 256)

-- `queue_function_fir` and `queue_function_sec`: the same line under their own names.
pub queue_function : Work → (scancode : ℕ) → Outcome (List Call)
queue_function w byte = do
  c ← get_ascii (sign_extend byte)
  done (print_key w (sign_extend byte) c ∷ [])

-- The stored byte, whether the interrupt was handled, and the calls. `byte` is what
-- `i8042_read_data` reads.
pub handler : (irq byte scancode : ℕ) → ℕ × Bool × List Call
handler irq byte scancode =
    if irq == irq_line
    then (byte, true, print_text ∷ queue_work fir_work ∷ queue_work sec_work ∷ [])
    else (scancode, false, print_text ∷ [])

-- The answers of `request_irq`, `create_singlethread_workqueue` and `proc_create`.
unfoldable pub work_queue_init : (ret : ℤ) (queue_made entry_made : Bool) → ℤ × List Call
work_queue_init ret queue_made entry_made =
    if nonzero ret
    then (ret, request_irq ∷ print_text ∷ [])
    else if not queue_made
    then (minus 12, request_irq ∷ create_workqueue ∷ free_irq ∷ print_text ∷ [])
    else if not entry_made
    then (
      minus 1,
      request_irq
          ∷ create_workqueue
          ∷ init_work fir_work
          ∷ init_work sec_work
          ∷ proc_create
          ∷ print_text
          ∷ [],
    )
    else (
      pos 0,
      request_irq
          ∷ create_workqueue
          ∷ init_work fir_work
          ∷ init_work sec_work
          ∷ proc_create
          ∷ print_text
          ∷ [],
    )

pub work_queue_exit : List Call
work_queue_exit =
    flush_workqueue ∷ destroy_workqueue ∷ free_irq ∷ remove_proc_entry ∷ print_text ∷ []

-- What the module holds of the kernel: its interrupt line, its queue, its entry under /proc.
pub record Held : Type 0 where
  pub irq : Bool
  pub queue : Bool
  pub entry : Bool

abbrev pub nothing_held : Held
nothing_held = record { irq = false; queue = false; entry = false }

abbrev pub everything_held : Held
everything_held = record { irq = true; queue = true; entry = true }

-- What the calls leave behind, given the answers of the three that can fail.
unfoldable pub after : (ret : ℤ) (queue_made entry_made : Bool) → List Call → Held → Held
after ret q e [] h = h
after ret q e (request_irq ∷ cs) h = after ret q e cs (record h { irq = not (nonzero ret) })
after ret q e (free_irq ∷ cs) h = after ret q e cs (record h { irq = false })
after ret q e (create_workqueue ∷ cs) h = after ret q e cs (record h { queue = q })
after ret q e (destroy_workqueue ∷ cs) h = after ret q e cs (record h { queue = false })
after ret q e (proc_create ∷ cs) h = after ret q e cs (record h { entry = e })
after ret q e (remove_proc_entry ∷ cs) h = after ret q e cs (record h { entry = false })
after ret q e (_ ∷ cs) h = after ret q e cs h

-- What a load leaves: everything if it returns 0; the interrupt line and the queue, and nothing to
-- give them back, if only the entry under /proc could not be made; nothing in the other failures.
pub work_queue_init-after :
    (ret : ℤ) (q e : Bool)
    → after ret q e (work_queue_init ret q e).1 nothing_held ≡ (
        if not (nonzero ret) && q
        then record { irq = true; queue = true; entry = e }
        else nothing_held)
unfolding work_queue_init after
work_queue_init-after ret q e = ground arith

-- An unload after a load that returned 0 leaves nothing, and the queue is flushed first.
pub work_queue_exit-after :
    (ret : ℤ) (q e : Bool)
    → (work_queue_init ret q e).0 ≡ pos 0
    → after ret q e ((work_queue_init ret q e).1 ++ work_queue_exit) nothing_held ≡ nothing_held
unfolding work_queue_init work_queue_exit after
work_queue_exit-after ret q e h = ground arith

clear_release_small : (s : ℕ) → s < 128 → clear_release s ≡ s
unfolding clear_release
clear_release_small s h = ground arith

clear_release_extended : (s : ℕ) → 128 ≤ s → s < 256 → 58 ≤ clear_release (s + 4294967040)
unfolding clear_release
clear_release_extended s lo hi = ground arith

-- For every byte of a key release the two works print the question mark, although the table has
-- a character for most of these keys: the sign extension leaves high bits that the mask keeps.
pub queue_function_released :
    (w : Work) (byte : ℕ)
    → 128 ≤ byte
    → byte < 256
    → queue_function w byte ≡ done (print_key w (byte + 4294967040) b'?' ∷ [])
unfolding queue_function
queue_function_released w byte lo hi = ground (
  arith,
  get_ascii-find_key (byte + 4294967040),
  find_key_above keys (clear_release (byte + 4294967040)) (omega arith)
      (clear_release_extended byte lo hi),
)

-- For every byte of a key press they print the character of the table.
pub queue_function_pressed :
    (w : Work) (byte : ℕ)
    → byte < 128
    → queue_function w byte ≡ done (print_key w byte (find_key keys byte) ∷ [])
unfolding queue_function
queue_function_pressed w byte hi =
    ground (arith, get_ascii-find_key byte, clear_release_small byte hi)

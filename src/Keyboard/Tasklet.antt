-- ===== src/Keyboard/Tasklet.antt =====
-- os_02/lab_09/src/tasklet/tasklet.c: the interrupt handler stores the scan code and schedules a
-- tasklet, which prints the key. The kernel is not modelled: what a function asks of it is listed
-- in order as calls, and what it answers is an argument.
use operating_sys.Base.{
  ℕ, ◌+◌, ◌≡◌, refl, ◌≢◌, Bool, true, false, List, [], ◌∷◌, ◌++◌, arith, ltb, ◌==◌, if◌then◌else◌,
}
use operating_sys.Base.Outcome.{Outcome, done, ◌>>=◌, ℤ, pos, nonzero}
use operating_sys.Keyboard.{irq_line, get_ascii, clear_release}
use operating_sys.Keyboard.Decode.{keys, find_key, get_ascii-find_key}

-- the `dev_id` under which the handler is registered or freed
pub data Cookie : Type 0 where
  handler_address : Cookie
  dev_id_address : Cookie

pub data Call : Type 0 where
  request_irq : ℕ → Cookie → Call
  free_irq : ℕ → Cookie → Call
  tasklet_init : Call
  tasklet_schedule : Call
  tasklet_disable : Call
  tasklet_kill : Call
  print_key : (scancode char : ℕ) → Call
  print_text : Call

-- `irqreturn_t`
pub data IrqReturn : Type 0 where
  irq_none : IrqReturn
  irq_handled : IrqReturn

pub record Irq : Type 0 where
  pub scancode : ℕ
  pub result : IrqReturn
  pub calls : List Call

-- `scancode` is the static variable before the interrupt, `byte` what `inb(0x60)` reads.
pub my_irq_handler : (irq byte scancode : ℕ) → Irq
my_irq_handler irq byte scancode =
    if irq == irq_line
    then record { scancode = byte; result = irq_handled; calls = tasklet_schedule ∷ [] }
    else record { scancode = scancode; result = irq_none; calls = [] }

pub my_tasklet_function : ℕ → Outcome (List Call)
my_tasklet_function scancode =
    if ltb scancode 103
    then (do c ← get_ascii scancode; done (print_key scancode c ∷ []))
    else done []

-- `ret` is what `request_irq` returns.
pub my_tasklet_init : ℤ → ℤ × List Call
my_tasklet_init ret = (
  ret,
  request_irq irq_line handler_address
      ∷ print_text
      ∷ (if nonzero ret then [] else tasklet_init ∷ []),
)

pub my_tasklet_exit : List Call
my_tasklet_exit =
    free_irq irq_line handler_address
    ∷ tasklet_disable
    ∷ tasklet_kill
    ∷ free_irq irq_line dev_id_address
    ∷ print_text
    ∷ []

-- An interrupt, and the tasklet after it if the handler scheduled one: what the handler answers,
-- the scan code that is stored, and what the tasklet asks for.
deferred : Irq → List Call → Outcome (IrqReturn × ℕ × List Call)
unfolding my_tasklet_function
deferred r [] = done (r.result, r.scancode, [])
deferred r (c ∷ cs) = do calls ← my_tasklet_function r.scancode; done (r.result, r.scancode, calls)

pub serve : (irq byte scancode : ℕ) → Outcome (IrqReturn × ℕ × List Call)
unfolding my_irq_handler deferred
serve irq byte scancode = let r = my_irq_handler irq byte scancode in deferred r r.calls

-- On the keyboard's line an interrupt stores the byte that was read, and a code below 103 prints
-- one line with the table's character for it; any other code prints nothing.
pub serve_keyboard :
    (byte old : ℕ)
    → serve irq_line byte old
      ≡ done (
        irq_handled,
        byte,
        (if ltb byte 103 then print_key byte (find_key keys (clear_release byte)) ∷ [] else []),
      )
unfolding serve
serve_keyboard byte old = ground (arith, get_ascii-find_key byte)

-- On any other line the handler declines, keeps the stored scan code and prints nothing.
pub serve_other :
    (irq byte old : ℕ) → irq ≢ irq_line → serve irq byte old ≡ done (irq_none, old, [])
unfolding serve
serve_other irq byte old ne = ground arith

-- Whether a list of calls registers, or frees, the handler under the given cookie.
abbrev pub same_cookie : Cookie → Cookie → Bool
same_cookie handler_address handler_address = true
same_cookie dev_id_address dev_id_address = true
same_cookie _ _ = false

unfoldable pub registered : Cookie → List Call → ℕ
registered k [] = 0
registered k (request_irq n c ∷ cs) = (if same_cookie k c then 1 else 0) + registered k cs
registered k (_ ∷ cs) = registered k cs

unfoldable pub freed : Cookie → List Call → ℕ
freed k [] = 0
freed k (free_irq n c ∷ cs) = (if same_cookie k c then 1 else 0) + freed k cs
freed k (_ ∷ cs) = freed k cs

-- Over the life of the module (a load that succeeds and the unload after it) the handler's own
-- registration is freed once; beyond that the unload frees one registration, that of `dev_id`,
-- which the load never made.
pub my_tasklet_exit-frees :
    ((registered handler_address ((my_tasklet_init (pos 0)).1 ++ my_tasklet_exit) ≡ 1)
      × (freed handler_address ((my_tasklet_init (pos 0)).1 ++ my_tasklet_exit) ≡ 1))
    × ((registered dev_id_address ((my_tasklet_init (pos 0)).1 ++ my_tasklet_exit) ≡ 0)
        × (freed dev_id_address ((my_tasklet_init (pos 0)).1 ++ my_tasklet_exit) ≡ 1))
unfolding my_tasklet_init my_tasklet_exit registered freed
my_tasklet_exit-frees = ((refl, refl), (refl, refl))

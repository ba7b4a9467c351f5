-- ===== src/Keyboard/WorkQueue/Order.antt =====
-- Interrupts and the worker of os_02/lab_09/src/workseq/workseq.c in any order. The queue has one
-- worker, which takes the works in the order in which they were queued; `queue_work` leaves a work
-- alone that is still pending. A work runs to its end before the next event.
use operating_sys.Base.{
  ℕ, zero, suc, ◌≡◌, refl, ◌∙◌, inl, inr, Bool, true, false, Bool-cases, List, [], ◌∷◌, ◌++◌, map,
  append_assoc, append-nil, ◌==◌, if◌then◌else◌, take, drop, All,
}
use operating_sys.Base.Outcome.{Outcome, done, exited, aborted, fault, out_of_fuel, ◌>>=◌}
use operating_sys.Keyboard.{irq_line, clear_release}
use operating_sys.Keyboard.Decode.{keys, find_key, get_ascii-find_key}
use operating_sys.Keyboard.WorkQueue.{
  Work, fir_work, sec_work, Call, queue_work, print_key, sign_extend, queue_function, handler,
}

-- `scancode`, the works that are queued, the first in front, and the lines that were printed.
pub record Queue : Type 0 where
  pub scancode : ℕ
  pub pending : List Work
  pub printed : List Call

-- behind a load that returned 0
abbrev pub loaded : Queue
loaded = record { scancode = 0; pending = []; printed = [] }

pub is_pending : Work → List Work → Bool
is_pending w [] = false
is_pending fir_work (fir_work ∷ works) = true
is_pending fir_work (sec_work ∷ works) = is_pending fir_work works
is_pending sec_work (fir_work ∷ works) = is_pending sec_work works
is_pending sec_work (sec_work ∷ works) = true

-- The effect of the calls of the handler on the queue.
pub queued : List Call → List Work → List Work
unfolding is_pending
queued [] works = works
queued (queue_work w ∷ calls) works =
    queued calls (if is_pending w works then works else works ++ w ∷ [])
queued (_ ∷ calls) works = queued calls works

-- An interrupt, with the byte that the keyboard gives, or a turn of the worker.
pub data Event : Type 0 where
  interrupt : (irq byte : ℕ) → Event
  worker : Event

-- One turn of the worker, on the works that are queued.
pub worker_turn : Queue → (pending : List Work) → Outcome Queue
unfolding queue_function
worker_turn q [] = done q
worker_turn q (w ∷ works) = do
  lines ← queue_function w q.scancode
  done (record q { pending = works; printed = q.printed ++ lines })

pub serve_event : Event → Queue → Outcome Queue
unfolding handler queued worker_turn
serve_event (interrupt irq byte) q =
    let (scancode, handled, calls) = handler irq byte q.scancode in
    done (record q { scancode = scancode; pending = queued calls q.pending })
serve_event worker q = worker_turn q q.pending

unfoldable pub serve_events : Queue → List Event → Outcome Queue
unfolding serve_event
serve_events q [] = done q
serve_events q (e ∷ es) = serve_event e q >>= λ q'. serve_events q' es

-- The line that a work prints.
abbrev pub line : ℕ → Work → Call
line byte w = print_key w (sign_extend byte) (find_key keys (clear_release (sign_extend byte)))

queue_function-line : (byte : ℕ) (w : Work) → queue_function w byte ≡ done (line byte w ∷ [])
unfolding queue_function
queue_function-line byte w = rw (get_ascii-find_key (sign_extend byte)) refl

-- No interrupt of the keyboard.
abbrev pub IsQuiet : Event → Type 0
IsQuiet (interrupt irq byte) = irq == irq_line ≡ false
IsQuiet worker = Unit

unfoldable pub turns : List Event → ℕ
turns [] = 0
turns (interrupt irq byte ∷ es) = turns es
turns (worker ∷ es) = suc (turns es)

abbrev pub queue : ℕ → List Work → List Call → Queue
queue s works lines = record { scancode = s; pending = works; printed = lines }

nothing_left : (k : ℕ) → (drop {A = Work} k [] ≡ []) × (take {A = Work} k [] ≡ [])
nothing_left zero = (refl, refl)
nothing_left (suc k) = (refl, refl)

-- Between two keys, each turn prints the line of the first work that is queued.
pub serve_events-quiet :
    (s : ℕ) (works : List Work) (lines : List Call) (es : List Event)
    → All IsQuiet es
    → serve_events (queue s works lines) es
      ≡ done (queue s (drop (turns es) works) (lines ++ map (line s) (take (turns es) works)))
unfolding serve_events serve_event handler queued worker_turn turns
serve_events-quiet s works lines [] quiet = rw (append-nil lines) refl
serve_events-quiet s works lines (interrupt irq byte ∷ es) (other, quiet) =
    rw other (serve_events-quiet s works lines es quiet)
serve_events-quiet s [] lines (worker ∷ es) (_, quiet) =
    (serve_events-quiet s [] lines es quiet
      ∙ rw ((nothing_left (turns es)).0, (nothing_left (turns es)).1) refl)
serve_events-quiet s (w ∷ works) lines (worker ∷ es) (_, quiet) =
    rw
      (
        queue_function-line s w,
        serve_events-quiet s works (lines ++ line s w ∷ []) es quiet,
        append_assoc lines (line s w ∷ []) (map (line s) (take (turns es) works)),
      )
      refl

abbrev pub other : Work → Work
other fir_work = sec_work
other sec_work = fir_work

-- No work is queued twice.
pub data IsQueue : List Work → Type 0 where
  empty : IsQueue []
  one : (w : Work) → IsQueue (w ∷ [])
  two : (w : Work) → IsQueue (w ∷ other w ∷ [])

-- A key leaves both works queued, in the one order or the other.
key_queued :
    (works : List Work)
    → IsQueue works
    → (w : Work) × (queued (queue_work fir_work ∷ queue_work sec_work ∷ []) works
        ≡ w ∷ other w ∷ [])
unfolding queued is_pending
key_queued _ empty = (fir_work, refl)
key_queued _ (one fir_work) = (fir_work, refl)
key_queued _ (one sec_work) = (sec_work, refl)
key_queued _ (two fir_work) = (fir_work, refl)
key_queued _ (two sec_work) = (sec_work, refl)

interrupt_IsQueue :
    (irq byte s : ℕ) (works : List Work)
    → IsQueue works
    → IsQueue (queued (handler irq byte s).2 works)
unfolding handler queued
interrupt_IsQueue irq byte s works h = elim (Bool-cases (irq == irq_line)) [
  | inl key ↦ let (w, both) = key_queued works h in rw (key, both) (two w)
  | inr none ↦ rw none h
]

-- Whatever happens, the events are served, and no work is queued twice.
serve_events-IsQueue :
    (s : ℕ) (works : List Work) (lines : List Call) (es : List Event)
    → IsQueue works
    → (q : Queue) × (serve_events (queue s works lines) es ≡ done q) × IsQueue q.pending
unfolding serve_events serve_event worker_turn
serve_events-IsQueue s works lines [] h = (queue s works lines, refl, h)
serve_events-IsQueue s works lines (interrupt irq byte ∷ es) h =
    serve_events-IsQueue (handler irq byte s).0 (queued (handler irq byte s).2 works) lines es
      (interrupt_IsQueue irq byte s works h)
serve_events-IsQueue s _ lines (worker ∷ es) empty = serve_events-IsQueue s [] lines es empty
serve_events-IsQueue s _ lines (worker ∷ es) (one w) =
    rw (queue_function-line s w) (serve_events-IsQueue s [] (lines ++ line s w ∷ []) es empty)
serve_events-IsQueue s _ lines (worker ∷ es) (two w) =
    rw (queue_function-line s w)
      (serve_events-IsQueue s (other w ∷ []) (lines ++ line s w ∷ []) es (one (other w)))

serve_events-append :
    (q : Queue) (es later : List Event)
    → serve_events q (es ++ later) ≡ (serve_events q es >>= λ q'. serve_events q' later)
unfolding serve_events
serve_events-append q [] later = refl
serve_events-append q (e ∷ es) later =
    through (λ q'. serve_events-append q' es later) (serve_event e q)
  where
    through :
        ((q' : Queue)
          → serve_events q' (es ++ later) ≡ (serve_events q' es >>= λ t. serve_events t later))
        → (o : Outcome Queue)
        → (o >>= λ q'. serve_events q' (es ++ later))
          ≡ ((o >>= λ q'. serve_events q' es) >>= λ q'. serve_events q' later)
    through rest (done q') = rest q'
    through rest (exited n) = refl
    through rest aborted = refl
    through rest fault = refl
    through rest out_of_fuel = refl

-- Whatever interrupts and turns of the worker came before: from a key until the next, the first two
-- turns print the line of that key, each in the name of one work, and further turns print nothing.
pub last_key_printed :
    (earlier later : List Event) (byte : ℕ)
    → All IsQuiet later
    → (q : Queue) × (serve_events loaded earlier ≡ done q)
      × (w : Work) × (serve_events loaded (earlier ++ interrupt irq_line byte ∷ later)
          ≡ done (
              queue byte
                (drop (turns later) (w ∷ other w ∷ []))
                (q.printed ++ map (line byte) (take (turns later) (w ∷ other w ∷ [])))))
unfolding serve_events serve_event handler queued
last_key_printed earlier later byte quiet =
    let (q, before, single) = serve_events-IsQueue 0 [] [] earlier empty in
    let (w, both) = key_queued q.pending single in
    (
      q,
      before,
      w,
      serve_events-append loaded earlier (interrupt irq_line byte ∷ later)
          ∙ rw (before, both) (serve_events-quiet byte (w ∷ other w ∷ []) q.printed later quiet),
    )

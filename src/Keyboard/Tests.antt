-- ===== src/Keyboard/Tests.antt =====
-- Runs of the keyboard modules, and the theorems at concrete inputs.
use operating_sys.Base.{◌+◌, ◌≡◌, refl, true, List, [], ◌∷◌, ◌++◌, arith}
use operating_sys.Base.Outcome.{done, pos}
use operating_sys.Keyboard.{get_ascii, clear_release}
use operating_sys.Keyboard.Decode.{keys, find_key, get_ascii-find_key, get_ascii_released}
use operating_sys.Keyboard.Tasklet.{irq_none, serve, serve_other}
use operating_sys.Keyboard.WorkQueue.{
  Work, fir_work, sec_work, queue_function, print_key, after, nothing_held, work_queue_init,
  work_queue_exit, work_queue_exit-after, queue_function_pressed,
}
use operating_sys.Keyboard.WorkQueue.Order.{
  Queue, Event, interrupt, worker, serve_events, loaded, queue, line, other, turns,
  last_key_printed,
}

get_ascii_q : get_ascii 0x10 ≡ done b'q'
unfolding get_ascii
get_ascii_q = refl

get_ascii-find_key_example : get_ascii 0x9e ≡ done (find_key keys (clear_release 0x9e))
get_ascii-find_key_example = get_ascii-find_key 0x9e

get_ascii_released_example : get_ascii (0x1e + 128) ≡ get_ascii 0x1e
get_ascii_released_example = get_ascii_released 0x1e (omega arith)

serve_other_example : serve 5 0x1e 7 ≡ done (irq_none, 7, [])
serve_other_example = serve_other 5 0x1e 7 (omega arith)

work_queue_exit-after_example :
    after (pos 0) true true ((work_queue_init (pos 0) true true).1 ++ work_queue_exit) nothing_held
    ≡ nothing_held
unfolding work_queue_init
work_queue_exit-after_example = work_queue_exit-after (pos 0) true true refl

queue_function_pressed_example :
    queue_function fir_work 0x1e ≡ done (print_key fir_work 0x1e (find_key keys 0x1e) ∷ [])
queue_function_pressed_example = queue_function_pressed fir_work 0x1e (omega arith)

-- q is struck and printed once, w is lost, and e is printed by both works, the second in front.
abbrev typed : List Event
typed = interrupt 1 0x10 ∷ worker ∷ interrupt 1 0x11 ∷ []

last_key_printed_example :
    (q : Queue) × (serve_events loaded typed ≡ done q)
    × (w : Work) × (serve_events loaded (typed ++ interrupt 1 0x12 ∷ worker ∷ worker ∷ [])
        ≡ done (queue 0x12 [] (q.printed ++ line 0x12 w ∷ line 0x12 (other w) ∷ [])))
unfolding turns
last_key_printed_example = last_key_printed typed (worker ∷ worker ∷ []) 0x12 (tt, (tt, tt))

letters_printed :
    serve_events loaded (typed ++ interrupt 1 0x12 ∷ worker ∷ worker ∷ [])
    ≡ done (
        queue 0x12 [] (
          print_key fir_work 0x10 b'q'
          ∷ print_key sec_work 0x12 b'e'
          ∷ print_key fir_work 0x12 b'e'
          ∷ []))
unfolding serve_events get_ascii
letters_printed = refl

-- ===== src/Pipes/Messages/Received.antt =====
-- What the parent of os_01/lab_04/src/04.c has received.
use operating_sys.Base.{ℕ, ◌≡◌, refl, sym, subst, ◌⊎◌, List, ◌∷◌, ◌++◌, arith, length, get_or, drop}
use operating_sys.Pipes.{msg}
use operating_sys.Pipes.Messages.{
  Parent, reading, waiting, System, Step, forks, fork_fails, sends, starts_reading, reads,
  pipe_ends, waits, returns, Reach, start, later,
}
use operating_sys.Pipes.Messages.Phases.{Phase, forks-Phase, sends-Phase}
use operating_sys.Pipes.Messages.Steps.{starts-Phase, reads-Phase, pipe_ends-Phase, waits-Phase}

abbrev pub Inv : (garbage : List ℕ) → System → Type 0
Inv garbage s = Phase garbage s.parent s.pipe s.buffer s.child

-- the invariant with the place of the parent written out
pub at :
    (garbage : List ℕ) (s : System) {p : Parent}
    → s.parent ≡ p
    → Inv garbage s
    → Phase garbage p s.pipe s.buffer s.child
at garbage s e inv = subst (λ p. Phase garbage p s.pipe s.buffer s.child) e inv

Step-Inv :
    (garbage : List ℕ) {s t : System}
    → length garbage ≡ 256
    → Step s t
    → Inv garbage s
    → Inv garbage t
Step-Inv garbage {s} size (forks {i} e h) inv =
    forks-Phase garbage s.pipe s.buffer s.child i h (at garbage s e inv)
Step-Inv garbage size (fork_fails e h) inv = tt
Step-Inv garbage {s} size (sends i h e) inv =
    sends-Phase garbage s.pipe s.buffer s.child i s.parent h e inv
Step-Inv garbage {s} size (starts_reading e) inv =
    starts-Phase garbage s.pipe s.buffer s.child (at garbage s e inv)
Step-Inv garbage {s} size (reads {index} {b} {pipe} {buffer} e has stored) inv =
    reads-Phase garbage pipe s.buffer buffer s.child index b size stored (
      subst (λ bytes. Phase garbage (reading index) bytes s.buffer s.child) has
        (at garbage s e inv))
Step-Inv garbage {s} size (pipe_ends {index} {buffer} e empty e0 e1 stored) inv =
    subst (λ bytes. Phase garbage (waiting 0) bytes buffer s.child) (sym empty)
      (pipe_ends-Phase garbage s.buffer buffer s.child index size e0 e1 stored (
        subst (λ bytes. Phase garbage (reading index) bytes s.buffer s.child) empty
          (at garbage s e inv)))
Step-Inv garbage {s} size (waits {i} j pid status e h hj fin) inv =
    waits-Phase garbage s.pipe s.buffer s.child i j hj fin (at garbage s e inv)
Step-Inv garbage {s} size (returns e) inv =
    let (received, e0, e1, count) = at garbage s e inv in (received, e0, e1)

pub Reach-Inv :
    {garbage : List ℕ} {s : System} → length garbage ≡ 256 → Reach garbage s → Inv garbage s
Reach-Inv size start = (refl, refl, omega arith, (λ j. ground arith), omega arith)
Reach-Inv {garbage} size (later r st) = Step-Inv garbage size st (Reach-Inv size r)

-- In every order of the steps, once the parent has read the pipe to its end, its array of 256 bytes
-- holds the two messages, the one that was sent first in front, then one byte that was in the array
-- before, and then the NUL: the text that is printed as received can have that byte at its end.
pub received_both :
    {garbage : List ℕ} {s : System} {i : ℕ}
    → length garbage ≡ 256
    → Reach garbage s
    → s.parent ≡ waiting i
    → (text : List ℕ) × ((text ≡ msg 0 ++ msg 1) ⊎ (text ≡ msg 1 ++ msg 0))
      × (s.buffer ≡ text ++ (get_or garbage 21 0 ∷ 0 ∷ drop 23 garbage))
received_both {garbage} {s} size r e = (at garbage s e (Reach-Inv size r)).0

-- ===== src/Messages/Walker.antt =====
-- `err_doit` of os_02/lab_dir_of_catalog/lab_own/main.c, a copy of the daemon's with other numbers:
-- a buffer of 4095 bytes, all of which the first `vsnprintf` may fill, and 40995 in the second.
use operating_sys.Base.{
  ℕ, suc, ◌+◌, ◌-◌, ◌≤◌, ◌<◌, ◌≡◌, Bool, true, false, List, [], ◌∷◌, ◌++◌, append_assoc, arith,
  dec_lt, ltb, if◌then◌else◌, lt→ltb, length, take, length-append, length-take, take-of_le,
}
use operating_sys.Base.Outcome.{Outcome, done, fault, ◌>>=◌, ◌>>◌, within}
use operating_sys.Messages.{
  Event, Ending, returns, exits, print_events, append_bounded, append_newline, size_sub,
}
use operating_sys.Messages.Bounds.{length-take-le}

abbrev pub buffer_size : ℕ
buffer_size = 4095

pub err_doit : (errnoflag : Bool) → (error message : List ℕ) → Outcome (List Event)
err_doit errnoflag error message = do
  buf ← append_bounded buffer_size [] 4095 message
  buf' ←
      if errnoflag
      then append_bounded buffer_size buf (size_sub (size_sub 40995 (length buf)) 1)
          (b':' ∷ b' ' ∷ error)
      else done buf
  buf'' ← append_newline buffer_size buf'
  done (print_events buf'')

pub err_ret : (errno_text message : List ℕ) → Outcome (List Event × Ending)
unfolding err_doit
err_ret errno_text message = do es ← err_doit true errno_text message; done (es, returns)

pub err_sys : (errno_text message : List ℕ) → Outcome (List Event × Ending)
unfolding err_doit
err_sys errno_text message = do es ← err_doit true errno_text message; done (es, exits 1)

pub err_quit : (message : List ℕ) → Outcome (List Event × Ending)
unfolding err_doit
err_quit message = do es ← err_doit false [] message; done (es, exits 1)

take_first :
    (message : List ℕ) → append_bounded buffer_size [] 4095 message ≡ done (take 4094 message)
unfolding append_bounded
take_first message = ground (arith, length-take-le 4094 message)

-- The second `snprintf` cuts nothing: its limit lies far behind the buffer.
append_uncut :
    (buf text : List ℕ)
    → length buf ≤ 4094
    → length text ≤ 30002
    → append_bounded buffer_size buf (size_sub (size_sub 40995 (length buf)) 1) text
      ≡ (do within (length buf + length text + 1) buffer_size; done (buf ++ text))
unfolding append_bounded
append_uncut buf text h short = rw (size, take-of_le (40993 - length buf) text (omega arith))
  where
    size : size_sub (size_sub 40995 (length buf)) 1 ≡ suc (40993 - length buf)
    size = omega arith

-- For every message and every error text of at most 30000 characters: the message with its error
-- text and the newline leaves the buffer exactly if the message, cut to 4094 characters, and the
-- error text with its colon and blank have more than 4093 characters together.
pub err_ret_overflow :
    (error message : List ℕ)
    → length error ≤ 30000
    → err_ret error message ≡ (
        if ltb 4093 (length (take 4094 message) + (length error + 2))
        then fault
        else done (print_events (take 4094 message ++ ((b':' ∷ b' ' ∷ error) ++ 10 ∷ [])), returns))
unfolding err_ret append_newline
err_ret_overflow error message short =
    rw
      (
        take_first message,
        append_uncut (take 4094 message) (b':' ∷ b' ' ∷ error) (length-take-le 4094 message)
            (omega arith),
      )
      (ground (
        arith,
        length-append (take 4094 message) (b':' ∷ b' ' ∷ error),
        append_assoc (take 4094 message) (b':' ∷ b' ' ∷ error) (10 ∷ []),
      ))

newline_overflow : (buf : List ℕ) → 4093 < length buf → append_newline buffer_size buf ≡ fault
unfolding append_newline
newline_overflow buf long = ground arith

newline_fits :
    (buf : List ℕ) → length buf ≤ 4093 → append_newline buffer_size buf ≡ done (buf ++ 10 ∷ [])
unfolding append_newline
newline_fits buf short = ground arith

-- A message without error text leaves the buffer exactly if it has 4094 characters or more.
pub err_quit_overflow :
    (message : List ℕ)
    → err_quit message ≡ (
        if ltb 4093 (length message)
        then fault
        else done (print_events (message ++ 10 ∷ []), exits 1))
unfolding err_quit
err_quit_overflow message = elim (dec_lt 4093 (length message)) [
  | yes long ↦ rw (
    take_first message,
    newline_overflow (take 4094 message) (omega (arith, length-take 4094 message)),
    lt→ltb 4093 (length message) long,
  )
  | no short ↦
      rw
        (
          take_first message,
          take-of_le 4094 message (omega arith),
          newline_fits message (omega arith),
        )
        (ground arith)
]

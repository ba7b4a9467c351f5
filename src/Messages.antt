-- ===== src/Messages.antt =====
-- The error messages of the daemon, os_02/lab_01/err.c. A formatted message and the text of
-- `strerror` are arguments, lists of characters with no NUL.
pub mod Bounds
pub mod Walker
mod Tests
use operating_sys.Base.{
  ℕ, zero, suc, ◌+◌, ◌-◌, ◌*◌, ◌/◌, ◌%◌, ◌^◌, ◌≤◌, ◌<◌, ◌≡◌, refl, sym, ap, ◌∙◌, subst, ◌≢◌, ◌↔◌,
  ◌⊎◌, inl, inr, Bool, true, false, not, ◌&&◌, ◌||◌, Option, none, some, List, [], ◌∷◌, ◌++◌, map,
  append_assoc, append-nil, arith, dec_lt, ℕ_discrete, ltb, leb, ◌==◌, if◌then◌else◌, ltb→lt,
  lt→ltb, leb→le, ==_iff, tests, Bool-cases, Option-cases, update, length, get_elem?, get_or, set,
  take, drop, replicate, All, length-append, length-take, take-append, length-set, length-replicate,
  get_elem?-set_self, get_elem?-set_ne, take-of_le,
}
use operating_sys.Base.Outcome.{
  Outcome, done, exited, aborted, fault, out_of_fuel, ◌>>=◌, ◌>>◌, char_at, ℤ, pos, negsuc, minus,
  nonzero, negative, within,
}

-- What a program writes, and when its streams are flushed.
pub data Event : Type 0 where
  flush_stdout : Event
  put_stderr : List ℕ → Event
  flush_all : Event

-- How a function ends for its caller.
pub data Ending : Type 0 where
  returns : Ending
  exits : ℕ → Ending
  dumps_core : Ending

-- `snprintf(buf + strlen(buf), n, text)` in a buffer of `size` bytes: at most n - 1 characters and
-- a NUL are written, and nothing at all if n is 0.
unfoldable pub append_bounded :
    (size : ℕ) → (buf : List ℕ) → (n : ℕ) → (text : List ℕ) → Outcome (List ℕ)
append_bounded size buf zero text = done buf
append_bounded size buf (suc n) text = do
  within (length buf + length (take n text) + 1) size
  done (buf ++ take n text)

-- `strcat(buf, "\n")`
unfoldable pub append_newline : (size : ℕ) → (buf : List ℕ) → Outcome (List ℕ)
append_newline size buf = do within (length buf + 2) size; done (buf ++ 10 ∷ [])

-- `a - b` on size_t
abbrev pub size_sub : ℕ → ℕ → ℕ
size_sub a b = (a + 2 ^ 64 - b) % 2 ^ 64

abbrev pub maxline : ℕ
maxline = 1024

abbrev pub print_events : List ℕ → List Event
print_events buf = flush_stdout ∷ put_stderr buf ∷ flush_all ∷ []

-- `message` is the whole text that `fmt` and its arguments give, `error` the text of `strerror`.
pub err_doit : (errnoflag : Bool) → (error message : List ℕ) → Outcome (List Event)
err_doit errnoflag error message = do
  buf ← append_bounded maxline [] (maxline - 1) message
  buf' ←
      if errnoflag
      then append_bounded maxline buf (size_sub (size_sub maxline (length buf)) 1)
          (b':' ∷ b' ' ∷ error)
      else done buf
  buf'' ← append_newline maxline buf'
  done (print_events buf'')

-- The functions that the daemon calls. `errno_text` is `strerror(errno)`, `error` that of the
-- parameter.
pub err_ret : (errno_text message : List ℕ) → Outcome (List Event × Ending)
unfolding err_doit
err_ret errno_text message = do es ← err_doit true errno_text message; done (es, returns)

pub err_sys : (errno_text message : List ℕ) → Outcome (List Event × Ending)
unfolding err_doit
err_sys errno_text message = do es ← err_doit true errno_text message; done (es, exits 1)

pub err_cont : (error message : List ℕ) → Outcome (List Event × Ending)
unfolding err_doit
err_cont error message = do es ← err_doit true error message; done (es, returns)

pub err_exit : (error message : List ℕ) → Outcome (List Event × Ending)
unfolding err_doit
err_exit error message = do es ← err_doit true error message; done (es, exits 1)

pub err_dump : (errno_text message : List ℕ) → Outcome (List Event × Ending)
unfolding err_doit
err_dump errno_text message = do es ← err_doit true errno_text message; done (es, dumps_core)

pub err_msg : (message : List ℕ) → Outcome (List Event × Ending)
unfolding err_doit
err_msg message = do es ← err_doit false [] message; done (es, returns)

pub err_quit : (message : List ℕ) → Outcome (List Event × Ending)
unfolding err_doit
err_quit message = do es ← err_doit false [] message; done (es, exits 1)

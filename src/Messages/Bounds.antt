-- ===== src/Messages/Bounds.antt =====
-- No message of err.c leaves its buffer.
use operating_sys.Base.{
  ℕ, suc, ◌-◌, ◌≤◌, ◌≡◌, Bool, true, false, List, [], ◌∷◌, ◌++◌, arith, length, take, length-take,
  take-append,
}
use operating_sys.Base.Outcome.{done}
use operating_sys.Messages.{
  returns, exits, dumps_core, maxline, print_events, append_bounded, append_newline, size_sub,
  err_doit, err_ret, err_sys, err_cont, err_exit, err_dump, err_msg, err_quit,
}

-- the whole text of a message
abbrev pub full_text : Bool → (error message : List ℕ) → List ℕ
full_text true error message = message ++ b':' ∷ b' ' ∷ error
full_text false error message = message

-- the line that is printed: the text, cut two bytes short of the buffer, and a newline
abbrev pub cut_line : List ℕ → List ℕ
cut_line text = take (maxline - 2) text ++ 10 ∷ []

pub length-take-le : (n : ℕ) (xs : List ℕ) → length (take n xs) ≤ n
length-take-le n xs = omega (arith, length-take n xs)

-- The first `snprintf`, the second on a buffer that holds at most 1022 characters, and `strcat`.
append_first :
    (message : List ℕ) → append_bounded maxline [] (maxline - 1) message ≡ done (take 1022 message)
unfolding append_bounded
append_first message = ground (arith, length-take-le 1022 message)

append_rest :
    (buf text : List ℕ)
    → length buf ≤ 1022
    → append_bounded maxline buf (size_sub (size_sub maxline (length buf)) 1) text
      ≡ done (buf ++ take (1022 - length buf) text)
unfolding append_bounded
append_rest buf text h = rw size (ground (arith, length-take-le (1022 - length buf) text))
  where
    size : size_sub (size_sub maxline (length buf)) 1 ≡ suc (1022 - length buf)
    size = omega arith

append_last : (text : List ℕ) → append_newline maxline (take 1022 text) ≡ done (cut_line text)
unfolding append_newline
append_last text = ground (arith, length-take-le 1022 text)

-- Whatever the lengths of the message and of the error text, the buffer of 1024 bytes suffices:
-- what is printed is the whole text cut to 1022 characters, and a newline.
pub err_doit-cut_line :
    (errnoflag : Bool) (error message : List ℕ)
    → err_doit errnoflag error message
      ≡ done (print_events (cut_line (full_text errnoflag error message)))
unfolding err_doit
err_doit-cut_line true error message = rw (
  append_first message,
  append_rest (take 1022 message) (b':' ∷ b' ' ∷ error) (length-take-le 1022 message),
  ← take-append 1022 message (b':' ∷ b' ' ∷ error),
  append_last (message ++ b':' ∷ b' ' ∷ error),
)
err_doit-cut_line false error message = rw (append_first message, append_last message)

-- The seven functions differ in the text and in how they end: three return, three exit with
-- status 1 and one dumps core. All print the cut line first.
pub err_endings :
    (error message : List ℕ)
    → ((err_ret error message
          ≡ done (print_events (cut_line (full_text true error message)), returns))
        × (err_cont error message
            ≡ done (print_events (cut_line (full_text true error message)), returns))
        × (err_msg message ≡ done (print_events (cut_line message), returns)))
      × ((err_sys error message
            ≡ done (print_events (cut_line (full_text true error message)), exits 1))
          × (err_exit error message
              ≡ done (print_events (cut_line (full_text true error message)), exits 1))
          × (err_quit message ≡ done (print_events (cut_line message), exits 1)))
      × (err_dump error message
          ≡ done (print_events (cut_line (full_text true error message)), dumps_core))
unfolding err_ret err_sys err_cont err_exit err_dump err_msg err_quit
err_endings error message =
    let with_error = err_doit-cut_line true error message in
    let without_error = err_doit-cut_line false [] message in
    (
      (rw with_error, rw with_error, rw without_error),
      (rw with_error, rw with_error, rw without_error),
      rw with_error,
    )

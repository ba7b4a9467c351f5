-- ===== src/Messages/Tests.antt =====
-- The bounds of the error messages at concrete texts.
use operating_sys.Base.{ℕ, ◌≡◌, true, List, [], ◌∷◌, ◌++◌, replicate}
use operating_sys.Base.Outcome.{done, fault}
use operating_sys.Messages.{
  returns, exits, dumps_core, print_events, err_doit, err_ret, err_sys, err_cont, err_exit,
  err_dump, err_msg, err_quit,
}
use operating_sys.Messages.Bounds.{full_text, cut_line, err_doit-cut_line, err_endings}
use operating_sys.Messages.Walker
use operating_sys.Messages.Walker.{err_ret_overflow, err_quit_overflow}

abbrev usage : List ℕ
usage = b'u' ∷ b's' ∷ b'e' ∷ []

abbrev reason : List ℕ
reason = b'n' ∷ b'o' ∷ []

err_doit-cut_line_example :
    err_doit true reason usage ≡ done (print_events (cut_line (usage ++ b':' ∷ b' ' ∷ reason)))
err_doit-cut_line_example = err_doit-cut_line true reason usage

err_endings_example :
    ((err_ret reason usage ≡ done (print_events (cut_line (full_text true reason usage)), returns))
      × (err_cont reason usage
          ≡ done (print_events (cut_line (full_text true reason usage)), returns))
      × (err_msg usage ≡ done (print_events (cut_line usage), returns)))
    × ((err_sys reason usage
          ≡ done (print_events (cut_line (full_text true reason usage)), exits 1))
        × (err_exit reason usage
            ≡ done (print_events (cut_line (full_text true reason usage)), exits 1))
        × (err_quit usage ≡ done (print_events (cut_line usage), exits 1)))
    × (err_dump reason usage
        ≡ done (print_events (cut_line (full_text true reason usage)), dumps_core))
err_endings_example = err_endings reason usage

-- a text of 4094 characters is one too many
err_quit_overflow_example : Walker.err_quit (replicate 4094 b'x') ≡ fault
err_quit_overflow_example = err_quit_overflow (replicate 4094 b'x')

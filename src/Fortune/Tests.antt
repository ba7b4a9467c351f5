-- ===== src/Fortune/Tests.antt =====
-- Runs of the cookie modules, and the theorems at concrete inputs.
use operating_sys.Base.{
  ℕ, ◌≡◌, refl, none, some, List, [], ◌∷◌, ◌++◌, arith, replicate, length-replicate,
}
use operating_sys.Base.Outcome.{done, fault, ◌>>=◌, pos}
use operating_sys.Base.Memory.{store_bytes, c_string}
use operating_sys.Fortune.{max_cookie_len, Pot, fresh_pot, terminate}
use operating_sys.Fortune.Proc.{reply, write__proc, read__proc}
use operating_sys.Fortune.Proc.Shelf.{Holds, fresh_pot-Holds, write__proc-Holds}
use operating_sys.Fortune.Proc.Take.{read__proc-take_next}
use operating_sys.Fortune.Proc.Session.{line, lines, write_all, read_times, write_all-read_times}
use operating_sys.Fortune.Proc.Overflow
use operating_sys.Fortune.Proc.Overflow.{write__proc_branches}
use operating_sys.Fortune.Seq.{write__seq, seq_line, start__seq, next__seq}
use operating_sys.Fortune.Seq.Guard
use operating_sys.Fortune.Seq.Guard.{write__seq_branches, write__seq_empty}
use operating_sys.Fortune.Seq.Show.{show_times, show_times-skips, next__seq-start__seq}

abbrev hi : List ℕ
hi = b'h' ∷ b'i' ∷ []

abbrev well_done : List ℕ
well_done = b'w' ∷ b'e' ∷ b'l' ∷ b'l' ∷ b' ' ∷ b'd' ∷ b'o' ∷ b'n' ∷ b'e' ∷ []

-- two cookies are written and read back
session_runs :
    (write_all (lines (hi ∷ well_done ∷ [])) fresh_pot >>= read_times 3)
    ≡ done (lines (hi ∷ well_done ∷ hi ∷ []))
unfolding write_all read_times write__proc read__proc store_bytes c_string terminate
session_runs = refl

write__proc-Holds_example :
    (p : Pot) × (write__proc fresh_pot (hi ++ 10 ∷ []) 0 ≡ done (pos 3, p)) × Holds p ([], hi ∷ [])
write__proc-Holds_example =
    write__proc-Holds ([], []) hi 10 fresh_pot-Holds (omega arith) (omega arith)

abbrev one_cookie : Pot
one_cookie = write__proc-Holds_example.0

read__proc-take_next_example :
    (p : Pot) × (read__proc one_cookie 0 0 ≡ done (reply (pos 3) 3 (hi ++ 10 ∷ []), p))
    × Holds p (hi ∷ [], [])
read__proc-take_next_example =
    read__proc-take_next ([], hi ∷ []) hi (hi ∷ [], []) write__proc-Holds_example.2 refl
      (omega arith)

write_all-read_times_example :
    (write_all (lines (hi ∷ well_done ∷ [])) fresh_pot >>= read_times 2)
    ≡ done (lines (hi ∷ well_done ∷ []))
write_all-read_times_example =
    write_all-read_times (hi ∷ well_done ∷ []) (omega arith) (omega arith) (omega arith)

-- a pot that is written to its end while nothing was read: the next write runs past it
abbrev full_pot : Pot
full_pot = record { pot = replicate max_cookie_len 7; cookie_index = 0; next_fortune = 4096 }

write__proc_branches_example : Overflow.summary (write__proc full_pot (line hi) 0) ≡ fault
write__proc_branches_example =
    write__proc_branches full_pot (line hi) (length-replicate {A = ℕ} max_cookie_len 7)
      (omega arith) (omega arith)

abbrev seq_pot : Pot
seq_pot = record { pot = replicate max_cookie_len 7; cookie_index = 4094; next_fortune = 0 }

write__seq_branches_example : Guard.summary (write__seq seq_pot (line hi) 0) ≡ fault
write__seq_branches_example =
    write__seq_branches seq_pot (line hi) (length-replicate {A = ℕ} max_cookie_len 7) (omega arith)
      (omega arith)

write__seq_empty_example : write__seq fresh_pot [] 0 ≡ fault
write__seq_empty_example = write__seq_empty fresh_pot refl

abbrev two_cookies : Pot
two_cookies = record { pot = hi ++ 0 ∷ (well_done ++ 0 ∷ []); cookie_index = 13; next_fortune = 0 }

show_times-skips_example :
    show_times 2 two_cookies ≡ done (seq_line hi ∷ seq_line (b'd' ∷ b'o' ∷ b'n' ∷ b'e' ∷ []) ∷ [])
show_times-skips_example =
    show_times-skips two_cookies [] hi (b'w' ∷ b'e' ∷ b'l' ∷ b'l' ∷ b' ' ∷ [])
      (b'd' ∷ b'o' ∷ b'n' ∷ b'e' ∷ []) [] refl refl (omega arith) refl (omega arith) (omega arith)

next__seq-start__seq_example :
    ((next__seq 4 0).0 ≡ none)
    × (start__seq (next__seq 4 0).2 ≡ (none, 0))
    × ((start__seq (start__seq (next__seq 4 0).2).1).0 ≡ some tt)
next__seq-start__seq_example = next__seq-start__seq 4 0

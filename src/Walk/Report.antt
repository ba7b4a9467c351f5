-- ===== src/Walk/Report.antt =====
-- The message of os_02/lab_dir_of_catalog/lab_own/main.c about an entry that `lstat` does not answer.
use operating_sys.Base.{
  ℕ, ◌+◌, ◌≤◌, ◌≡◌, refl, sym, ◌∙◌, min, Bool, true, false, List, ◌++◌, arith, dec_lt, ltb, lt→ltb,
  if◌then◌else◌, length, take, length-append, length-take,
}
use operating_sys.Base.Outcome.{Outcome, done, fault, ◌>>=◌}
use operating_sys.Base.Texts.{codes}
use operating_sys.Messages.Walker.{err_ret_overflow}
use operating_sys.Walk.{Files, stat_error}
use operating_sys.Walk.Tree.{HasRoom}

ltb_past : (a b : ℕ) → b ≤ a → ltb a b ≡ false
ltb_past a b le = ground arith

-- The length of the message, cut to the 4094 characters that the buffer takes first.
cut_length :
    (path : List ℕ)
    → length (take 4094 (codes "stat error for " ++ path)) ≡ min 4094 (15 + length path)
cut_length path =
    rw
      (
        length-take 4094 (codes "stat error for " ++ path),
        length-append (codes "stat error for ") path,
      )
      refl

same_room : (t p n : ℕ) → t ≡ min 4094 (15 + p) → ltb 4093 (t + (n + 2)) ≡ ltb 4076 (p + n)
same_room t p n e = elim (dec_lt 4076 (p + n)) [
  | yes long ↦ lt→ltb 4093 (t + (n + 2)) (omega arith) ∙ sym (lt→ltb 4076 (p + n) long)
  | no fits ↦ ltb_past 4093 (t + (n + 2)) (omega arith) ∙ sym (ltb_past 4076 (p + n) (omega arith))
]

reported :
    {A : Type 0} (a : A) (b : Bool) (finished : Outcome (Unit {0}))
    → ((if b then fault else done a) >>= λ x. finished) ≡ (if b then fault else finished)
reported a true finished = refl
reported a false finished = refl

-- For every error text of at most 30000 characters: the message leaves the buffer of `err_doit`
-- exactly if path and error text have more than 4076 characters together.
pub stat_error_lem :
    (f : Files) (path : List ℕ)
    → length (f.error_text path) ≤ 30000
    → stat_error f path
      ≡ (if ltb 4076 (length path + length (f.error_text path)) then fault else done tt)
unfolding stat_error
stat_error_lem f path short =
    rw
      (
        err_ret_overflow (f.error_text path) (codes "stat error for " ++ path) short,
        same_room _ (length path) (length (f.error_text path)) (cut_length path),
      )
      (reported _ (ltb 4076 (length path + length (f.error_text path))) (done tt))

pub stat_error-fits : (f : Files) (path : List ℕ) → HasRoom f path → stat_error f path ≡ done tt
stat_error-fits f path room =
    stat_error_lem f path (omega arith)
    ∙ rw (ltb_past 4076 (length path + length (f.error_text path)) room) refl

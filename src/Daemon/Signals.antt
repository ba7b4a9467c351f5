-- ===== src/Daemon/Signals.antt =====
-- `thr_fn` of os_02/lab_01/daemonise.c: the thread that waits for signals. What `sigwait` answers
-- is a list.
use operating_sys.Base.{
  ℕ, ◌≡◌, ◌≢◌, Option, none, some, List, [], ◌∷◌, ◌++◌, append_assoc, append-nil, arith, ◌==◌,
  if◌then◌else◌, All,
}

abbrev pub sighup : ℕ
sighup = 1

abbrev pub sigterm : ℕ
sigterm = 15

pub data Log : Type 0 where
  hup_catched : Log
  got_term : Log
  unexpected : (signo : ℕ) → Log
  sigwait_failed : Log

-- `none` while the thread still waits; else the status with which the process left.
pub record Thread : Type 0 where
  pub status : Option ℕ
  pub log : List Log

-- An answer is `none` if `sigwait` fails, and the signal otherwise. `log` is what was logged so
-- far.
unfoldable pub thr_fn : List (Option ℕ) → (log : List Log) → Thread
thr_fn [] log = record { status = none; log = log }
thr_fn (none ∷ rest) log = record { status = some 1; log = log ++ sigwait_failed ∷ [] }
thr_fn (some signo ∷ rest) log =
    let next =
      thr_fn rest (log ++ (if signo == sighup then hup_catched else unexpected signo) ∷ []) in
    if signo == sigterm then record { status = some 0; log = log ++ got_term ∷ [] } else next

abbrev pub log_of : List ℕ → List Log
log_of [] = []
log_of (s ∷ ss) = (if s == sighup then hup_catched else unexpected s) ∷ log_of ss

abbrev pub answers : List ℕ → List (Option ℕ)
answers [] = []
answers (s ∷ ss) = some s ∷ answers ss

-- Signals other than SIGTERM are logged, each once and in order, and never end the thread.
thr_fn-log_of :
    (ss : List ℕ) (rest : List (Option ℕ)) (log : List Log)
    → All (λ s. s ≢ sigterm) ss
    → thr_fn (answers ss ++ rest) log ≡ thr_fn rest (log ++ log_of ss)
unfolding thr_fn
thr_fn-log_of [] rest log others = rw (append-nil log)
thr_fn-log_of (s ∷ ss) rest log others = ground (
  arith,
  others.0,
  thr_fn-log_of ss rest (log ++ (if s == sighup then hup_catched else unexpected s) ∷ []) others.1,
  append_assoc log ((if s == sighup then hup_catched else unexpected s) ∷ []) (log_of ss),
)

-- The first SIGTERM ends the daemon with status 0, whatever comes after it; every signal before
-- it is logged, SIGHUP by its own line, and the daemon runs on.
pub thr_fn_term :
    (ss : List ℕ) (rest : List (Option ℕ))
    → All (λ s. s ≢ sigterm) ss
    → (thr_fn (answers ss) [] ≡ record { status = none; log = log_of ss })
      × (thr_fn (answers ss ++ some sigterm ∷ rest) []
          ≡ record { status = some 0; log = log_of ss ++ got_term ∷ [] })
unfolding thr_fn
thr_fn_term ss rest others = (
  rw (append-nil (answers ss)) at (thr_fn-log_of ss [] [] others),
  thr_fn-log_of ss (some sigterm ∷ rest) [] others,
)

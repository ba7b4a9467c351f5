-- ===== src/Server.antt =====
-- The socket servers: os_02/lab_08/src/net/server.c, which serves up to ten clients through
-- `select`, and os_02/lab_08/src/unix/server.c (the child Datagram). What the system calls answer
-- is an argument.
pub mod Table
pub mod Watch
pub mod Round
pub mod Datagram
pub mod Clients
pub mod Run
mod Tests
use operating_sys.Base.{
  ℕ, zero, suc, ◌+◌, ◌-◌, ◌*◌, ◌/◌, ◌%◌, ◌^◌, ◌≤◌, ◌<◌, ◌≡◌, refl, sym, ap, ◌∙◌, subst, ◌≢◌, ◌↔◌,
  ◌⊎◌, inl, inr, Bool, true, false, not, ◌&&◌, ◌||◌, Option, none, some, List, [], ◌∷◌, ◌++◌, map,
  append_assoc, append-nil, arith, dec_lt, ℕ_discrete, ltb, leb, ◌==◌, if◌then◌else◌, ltb→lt,
  lt→ltb, leb→le, ==_iff, tests, Bool-cases, Option-cases, update, length, get_elem?, get_or, set,
  take, drop, replicate, All, length-append, length-take, take-append, length-set, length-replicate,
  get_elem?-set_self, get_elem?-set_ne, take-of_le,
}
use operating_sys.Base.Outcome.{
  Outcome, done, exited, aborted, fault, out_of_fuel, ◌>>=◌, ◌>>◌, char_at, ℤ, pos, negsuc, minus,
  nonzero, negative, within,
}
use operating_sys.Base.Memory.{store_bytes, c_string}

abbrev pub max_clients_count : ℕ
max_clients_count = 10

abbrev pub buf_size : ℕ
buf_size = 256

-- `clients`: the descriptors, 0 for a slot that is free
abbrev pub Clients : Type 0
Clients = List ℕ

pub data Event : Type 0 where
  connected : (slot sd : ℕ) → Event
  disconnected : (slot sd : ℕ) → Event
  closed : (sd : ℕ) → Event
  message : (slot sd : ℕ) → (text : List ℕ) → Event

-- What `recv` answers: -1, or the bytes that it put into the buffer, none at the end.
pub data Recv : Type 0 where
  failed : Recv
  bytes : List ℕ → Recv

-- the `for` loop of `handle_connection`, from slot `i` on
unfoldable pub place : (sd i : ℕ) → Clients → Option (ℕ × Clients)
place sd i [] = none
place sd i (c ∷ cs) =
    if c == 0
    then some (i, sd ∷ cs)
    else elim (place sd (i + 1) cs) [ none ↦ none | some (j, r) ↦ some (j, c ∷ r) ]

-- `accepted` is what `accept` answers, `none` for -1. Both failures close the listening socket and
-- leave the process.
unfoldable pub handle_connection : (accepted : Option ℕ) → Clients → Outcome (Clients × List Event)
unfolding place
handle_connection none cs = exited 1
handle_connection (some sd) cs = elim (place sd 0 cs) [
  | none ↦ exited 1
  | some (i, r) ↦ done (r, connected i sd ∷ [])
]

-- What `recv` returns, and the array `msg` behind it.
pub receive : (msg : List ℕ) → Recv → Outcome (ℤ × List ℕ)
receive msg failed = done (negsuc 0, msg)
receive msg (bytes bs) = do msg' ← store_bytes msg 0 bs; done (pos (length bs), msg')

-- `msg[i] = c`; there is no byte of the array before its start.
pub set_char : (msg : List ℕ) → ℤ → (c : ℕ) → Outcome (List ℕ)
set_char msg (pos i) c = store_bytes msg i (c ∷ [])
set_char msg (negsuc i) c = fault

-- `msg` is what the local array of BUF_SIZE bytes holds at the start.
unfoldable pub handle_client :
    (msg : List ℕ) (answer : Recv) → (i : ℕ) → Clients → Outcome (Clients × List Event)
unfolding receive set_char
handle_client msg answer i cs = do
  (n, received) ← receive msg answer
  if not (nonzero n)
      then done (set cs i 0, disconnected i (get_or cs i 0) ∷ closed (get_or cs i 0) ∷ [])
      else do
        ended ← set_char received n 0
        text ← c_string ended 0
        done (cs, message i (get_or cs i 0) text ∷ [])

-- What the array holds before `recv` is never read; the loop below takes zeros.
abbrev pub unset_msg : List ℕ
unset_msg = replicate buf_size 0

-- the loop over the clients behind `select`, for `n` slots from `i` on; `recv` answers by slot
unfoldable pub serve :
    (ready : ℕ → Bool) (recv : ℕ → Recv) → (n i : ℕ) → Clients → Outcome (Clients × List Event)
serve ready recv zero i cs = done (cs, [])
serve ready recv (suc n) i cs = do
  (cs', es) ←
      if not (get_or cs i 0 == 0) && ready (get_or cs i 0)
      then handle_client unset_msg (recv i) i cs
      else done (cs, [])
  (cs'', es') ← serve ready recv n (i + 1) cs'
  done (cs'', es ++ es')

-- the loop that fills the set for `select` and finds the greatest descriptor
unfoldable pub watch : (set : List ℕ) (max_sd : ℕ) → Clients → List ℕ × ℕ
watch set max_sd [] = (set, max_sd)
watch set max_sd (c ∷ cs) =
    watch (if ltb 0 c then c ∷ set else set) (if ltb max_sd c then c else max_sd) cs

-- what the system answers in one round of the main loop
pub record Answers : Type 0 where
  pub selected : Bool
  pub master_ready : Bool
  pub accepted : Option ℕ
  pub ready : ℕ → Bool
  pub recv : ℕ → Recv

-- one round of the main loop
unfoldable pub round : Answers → Clients → Outcome (Clients × List Event)
unfolding handle_connection serve
round a cs = if not a.selected then exited 1 else do
  (cs', es) ← if a.master_ready then handle_connection a.accepted cs else done (cs, [])
  (cs'', es') ← serve a.ready a.recv max_clients_count 0 cs'
  done (cs'', es ++ es')

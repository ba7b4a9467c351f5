-- ===== src/Server/Datagram.antt =====
-- os_02/lab_08/src/unix/server.c: one socket of the UNIX domain, read in a loop.
use operating_sys.Base.{
  ℕ, ◌<◌, ◌≡◌, refl, ◌∙◌, Bool, true, false, not, List, [], ◌∷◌, ◌++◌, append_assoc, append-nil,
  ltb, if◌then◌else◌, lt→ltb, length, All,
}
use operating_sys.Base.Memory.{until_nul}
use operating_sys.Server.{Recv, failed, bytes, buf_size}

-- What happens to the server while it waits: `recv` answers, or SIGINT arrives.
pub data Input : Type 0 where
  received : Recv → Input
  interrupt : Input

-- Where a run stands: it waits for the next input, it left the process with a status, or it wrote
-- outside `msg`. `name_exists` says whether the socket's name is in the file system.
pub data State : Type 0 where
  waiting : State
  left : (status : ℕ) → State
  crashed : State

pub record Run : Type 0 where
  pub state : State
  pub name_exists : Bool
  pub printed : List (List ℕ)

abbrev pub run_at : State → Bool → List (List ℕ) → Run
run_at s n p = record { state = s; name_exists = n; printed = p }

-- `cleanup` and `exit`, in `sighandler` and in `perror_exit`: the name is removed.
abbrev pub leave : (status : ℕ) → (printed : List (List ℕ)) → Run
leave status printed = run_at (left status) false printed

-- the loop, with the lines that were printed so far
pub receive_loop : List Input → (printed : List (List ℕ)) → Run
receive_loop [] printed = run_at waiting true printed
receive_loop (interrupt ∷ is) printed = leave 0 printed
receive_loop (received failed ∷ is) printed = leave 1 printed
receive_loop (received (bytes b) ∷ is) printed =
    let rest = receive_loop is (printed ++ until_nul b ∷ []) in
    if ltb (length b) buf_size then rest else run_at crashed true printed

-- `name_exists` is whether another server's socket has the name already.
pub main : (name_exists : Bool) (socket_made bound signal_set : Bool) → List Input → Run
unfolding receive_loop
main name_exists socket_made bound signal_set is =
    let served = receive_loop is [] in
    if not socket_made
    then run_at (left 1) name_exists []
    else if not bound
    then leave 1 []
    else if not signal_set
    then leave 1 []
    else served

-- the texts of inputs that are all messages
abbrev pub texts_of : List (List ℕ) → List (List ℕ)
texts_of [] = []
texts_of (b ∷ bs) = until_nul b ∷ texts_of bs

abbrev pub messages : List (List ℕ) → List Input
messages [] = []
messages (b ∷ bs) = received (bytes b) ∷ messages bs

receive_loop-texts :
    (ms : List (List ℕ)) (is : List Input) (printed : List (List ℕ))
    → All (λ b. length b < buf_size) ms
    → receive_loop (messages ms ++ is) printed ≡ receive_loop is (printed ++ texts_of ms)
unfolding receive_loop
receive_loop-texts [] is printed short = rw (append-nil printed)
receive_loop-texts (m ∷ ms) is printed short =
    rw (lt→ltb (length m) buf_size short.0)
      (receive_loop-texts ms is (printed ++ until_nul m ∷ []) short.1 ∙ simp append_assoc)

-- A server that is bound prints every message that is shorter than its buffer, in order, up to
-- the first NUL of each; at SIGINT it leaves with status 0, and its name is gone.
pub main_serves :
    (ms : List (List ℕ)) (rest : List Input)
    → All (λ b. length b < buf_size) ms
    → main false true true true (messages ms ++ interrupt ∷ rest) ≡ leave 0 (texts_of ms)
unfolding main
main_serves ms rest short = receive_loop-texts ms (interrupt ∷ rest) [] short

-- A second server, whose `bind` fails because the name is taken, removes the name under which
-- the first one is reached.
pub main_unlinks :
    (signal_set : Bool) (is : List Input) → (main true true false signal_set is).name_exists ≡ false
unfolding main
main_unlinks signal_set is = refl

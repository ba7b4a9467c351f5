-- ===== src/Server/Clients.antt =====
-- The clients os_02/lab_08/src/unix/client.c and os_02/lab_08/src/net/client.c, and what the
-- datagram server prints of what the first one sends.
use operating_sys.Base.{
  ℕ, zero, suc, ◌+◌, ◌-◌, ◌<◌, ◌≡◌, refl, ap, ◌∙◌, Bool, true, false, not, Option, none, some, List,
  [], ◌∷◌, ◌++◌, arith, if◌then◌else◌, length, take, All, length-take,
}
use operating_sys.Base.Memory.{IsText, until_nul}
use operating_sys.Base.Texts.{codes}
use operating_sys.Base.Digits.{digits_of, chars_of, decimal}
use operating_sys.Server.{buf_size}
use operating_sys.Server.Datagram.{interrupt, leave, main, texts_of, messages, main_serves}

-- `snprintf(msg, ARRAY_SIZE(msg), "pid %d", getpid())`
abbrev pub client_msg : (pid : ℕ) → List ℕ
client_msg pid = take (buf_size - 1) (codes "pid " ++ decimal pid)

-- The end of a client, `none` while it goes on, and the messages that it has sent.
pub record Client : Type 0 where
  pub status : Option ℕ
  pub sent : List (List ℕ)

abbrev pub failed_client : Client
failed_client = record { status = some 1; sent = [] }

-- unix/client.c: what `socket` and `sendto` answer are arguments.
abbrev pub datagram_client : (socket_made sent : Bool) (pid : ℕ) → Client
datagram_client socket_made sent pid =
    if not socket_made
    then failed_client
    else if sent
    then record { status = some 0; sent = client_msg pid ∷ [] }
    else failed_client

-- The loop of net/client.c, one answer of `sendto` to a round; it ends when one fails.
unfoldable pub send_loop : (pid : ℕ) → List Bool → Client
send_loop pid [] = record { status = none; sent = [] }
send_loop pid (sent ∷ answers) =
    let later = send_loop pid answers in
    if sent
    then record { status = later.status; sent = client_msg pid ∷ later.sent }
    else failed_client

abbrev pub stream_client : (socket_made connected : Bool) (pid : ℕ) (answers : List Bool) → Client
stream_client socket_made connected pid answers =
    let sends = send_loop pid answers in
    if not socket_made then failed_client else if not connected then failed_client else sends

-- One run of unix/client.c.
pub record Start : Type 0 where
  pub socket_made : Bool
  pub sent : Bool
  pub pid : ℕ

-- all that the clients send, in the order in which they are started
abbrev pub all_sent : List Start → List (List ℕ)
all_sent [] = []
all_sent (c ∷ cs) = (datagram_client c.socket_made c.sent c.pid).sent ++ all_sent cs

chars_of-IsText : (ds : List ℕ) → IsText (chars_of ds)
chars_of-IsText [] = tt
chars_of-IsText (d ∷ ds) = (ground arith, chars_of-IsText ds)

take-IsText : (n : ℕ) (text : List ℕ) → IsText text → IsText (take n text)
take-IsText zero text t = tt
take-IsText (suc n) [] t = tt
take-IsText (suc n) (b ∷ text) t = (t.0, take-IsText n text t.1)

until_nul-text : (text : List ℕ) → IsText text → until_nul text ≡ text
until_nul-text [] t = refl
until_nul-text (b ∷ text) t = ground (arith, t.0, until_nul-text text t.1)

client_msg-whole :
    (pid : ℕ) → (until_nul (client_msg pid) ≡ client_msg pid) × (length (client_msg pid) < buf_size)
unfolding decimal
client_msg-whole pid =
    let text : IsText (codes "pid " ++ decimal pid) = (
      ground arith,
      (ground arith, (ground arith, (ground arith, chars_of-IsText (digits_of 10 (pid + 1) pid)))),
    ) in
    (
      until_nul-text (client_msg pid)
          (take-IsText (buf_size - 1) (codes "pid " ++ decimal pid) text),
      omega (arith, length-take (buf_size - 1) (codes "pid " ++ decimal pid)),
    )

all_sent-whole :
    (cs : List Start)
    → (texts_of (all_sent cs) ≡ all_sent cs) × All (λ b. length b < buf_size) (all_sent cs)
all_sent-whole [] = (refl, tt)
all_sent-whole (c ∷ cs) = go c.socket_made c.sent (all_sent-whole cs)
  where
    both : {x y : List ℕ} {xs ys : List (List ℕ)} → x ≡ y → xs ≡ ys → x ∷ xs ≡ y ∷ ys
    both e h = cc

    go :
        (socket_made sent : Bool)
        → (texts_of (all_sent cs) ≡ all_sent cs) × All (λ b. length b < buf_size) (all_sent cs)
        → (texts_of ((datagram_client socket_made sent c.pid).sent ++ all_sent cs)
            ≡ (datagram_client socket_made sent c.pid).sent ++ all_sent cs)
          × All
              (λ b. length b < buf_size)
              ((datagram_client socket_made sent c.pid).sent ++ all_sent cs)
    go false sent rest = rest
    go true false rest = rest
    go true true (same, short) =
        let (whole, fits) = client_msg-whole c.pid in (both whole same, (fits, short))

-- Whatever clients are started, and whichever of them fail: the server, once bound, prints the
-- whole message of each that could send, and nothing else, in their order, until SIGINT ends it
-- with status 0 and removes its name.
pub main_serves-all_sent :
    (cs : List Start)
    → main false true true true (messages (all_sent cs) ++ interrupt ∷ []) ≡ leave 0 (all_sent cs)
main_serves-all_sent cs =
    let (same, short) = all_sent-whole cs in main_serves (all_sent cs) [] short ∙ ap (leave 0) same

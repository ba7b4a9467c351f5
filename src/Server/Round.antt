-- ===== src/Server/Round.antt =====
-- The clients that `select` reports as ready.
use operating_sys.Base.{
  length-snoc, ℕ, ◌+◌, ◌≤◌, ◌<◌, ◌≡◌, refl, ap, ◌∙◌, inl, inr, Bool, true, false, not, ◌&&◌, List,
  [], ◌∷◌, ◌++◌, append_assoc, arith, dec_lt, ltb, ◌==◌, if◌then◌else◌, lt→ltb, Bool-cases, length,
  get_or, set, drop,
}
use operating_sys.Base.Outcome.{Outcome, done, fault}
use operating_sys.Base.Memory.{
  until_nul, splice, length-splice, length-drop_add, string_of, c_string, store_bytes,
  store_bytes_fits, store_bytes_fault, store_bytes-append,
}
use operating_sys.Server.{
  Clients, Event, disconnected, closed, message, Recv, failed, bytes, buf_size, unset_msg,
  handle_client, serve,
}

-- `recv` gave fewer bytes than the buffer holds, and no error
abbrev pub IsShort : Recv → Type 0
IsShort failed = ⊥
IsShort (bytes b) = length b < buf_size

abbrev pub hung_up : Recv → Bool
hung_up failed = false
hung_up (bytes []) = true
hung_up (bytes (b ∷ bs)) = false

-- The table behind the loop: the clients that were ready and sent nothing are gone.
unfoldable pub remaining : (ready : ℕ → Bool) (recv : ℕ → Recv) → (i : ℕ) → Clients → Clients
remaining ready recv i [] = []
remaining ready recv i (c ∷ cs) =
    (if not (c == 0) && (ready c && hung_up (recv i)) then 0 else c)
    ∷ remaining ready recv (i + 1) cs

get_or-append : (xs : Clients) (c : ℕ) (ys : Clients) → get_or (xs ++ c ∷ ys) (length xs) 0 ≡ c
get_or-append [] c ys = refl
get_or-append (x ∷ xs) c ys = get_or-append xs c ys

set-append :
    (xs : Clients) (c v : ℕ) (ys : Clients) → set (xs ++ c ∷ ys) (length xs) v ≡ xs ++ v ∷ ys
set-append [] c v ys = refl
set-append (x ∷ xs) c v ys = ap (◌∷◌ x) (set-append xs c v ys)

-- what one answer makes of a client
abbrev left_of : Recv → ℕ → ℕ
left_of r c = if hung_up r then 0 else c

-- what is reported of it
abbrev events_of : Recv → (slot sd : ℕ) → List Event
events_of failed i c = []
events_of (bytes []) i c = disconnected i c ∷ closed c ∷ []
events_of (bytes (b ∷ bs)) i c = message i c (until_nul (b ∷ bs)) ∷ []

string_of-until_nul : (xs rest : List ℕ) → string_of (xs ++ 0 ∷ rest) ≡ done (until_nul xs)
string_of-until_nul [] rest = refl
string_of-until_nul (x ∷ xs) rest = ground (arith, string_of-until_nul xs rest)

-- The text of a message that leaves room for the NUL, whatever the array held before.
handle_client-text :
    (msg : List ℕ) (b : ℕ) (bs : List ℕ) (i : ℕ) (cs : Clients)
    → length msg ≡ buf_size
    → length (b ∷ bs) < buf_size
    → handle_client msg (bytes (b ∷ bs)) i cs
      ≡ done (cs, message i (get_or cs i 0) (until_nul (b ∷ bs)) ∷ [])
unfolding handle_client c_string
handle_client-text msg b bs i cs size short =
    rw
      (
        store_bytes-append [] msg (b ∷ bs) (omega arith),
        store_bytes-append (b ∷ bs) (drop (length (b ∷ bs)) msg) (0 ∷ [])
            (omega (arith, length-drop_add (length (b ∷ bs)) msg (omega arith))),
        string_of-until_nul (b ∷ bs) (drop 1 (drop (length (b ∷ bs)) msg)),
      )
      refl

-- A message without that room.
handle_client-long :
    (msg bs : List ℕ) (i : ℕ) (cs : Clients)
    → length msg ≡ buf_size
    → buf_size ≤ length bs
    → handle_client msg (bytes bs) i cs ≡ fault
unfolding handle_client
handle_client-long msg [] i cs size long = absurd (omega arith)
handle_client-long msg (b ∷ bs) i cs size long = elim (dec_lt (length msg) (length (b ∷ bs))) [
  | yes over ↦ rw (store_bytes_fault msg 0 (b ∷ bs) (omega arith) (omega arith)) refl
  | no full ↦
      rw
        (
          store_bytes_fits msg 0 (b ∷ bs) (omega arith) (omega arith),
          store_bytes_fault (splice msg 0 (b ∷ bs)) (length (b ∷ bs)) (0 ∷ []) (omega arith)
              (omega (arith, length-splice msg 0 (b ∷ bs))),
        )
        refl
]

client_step :
    (msg : List ℕ) (r : Recv) (front rest : Clients) (c : ℕ)
    → length msg ≡ buf_size
    → IsShort r
    → handle_client msg r (length front) (front ++ c ∷ rest)
      ≡ done (front ++ left_of r c ∷ rest, events_of r (length front) c)
unfolding handle_client store_bytes
client_step msg failed front rest c size short = absurd short
client_step msg (bytes []) front rest c size short =
    rw (set-append front c 0 rest, get_or-append front c rest)
client_step msg (bytes (b ∷ bs)) front rest c size short =
    rw (handle_client-text msg b bs (length front) (front ++ c ∷ rest) size short)
      (rw (get_or-append front c rest) refl)

module _ (ready : ℕ → Bool) (recv : ℕ → Recv) (short : (i : ℕ) → IsShort (recv i)) where
  -- the client at the front of what is left
  abbrev head_of : ℕ → ℕ → ℕ
  head_of i c = if not (c == 0) && (ready c && hung_up (recv i)) then 0 else c

  serve_step :
      (front rest : Clients) (c : ℕ)
      → (es : List Event) × ((if not (c == 0) && ready c
            then handle_client unset_msg (recv (length front)) (length front) (front ++ c ∷ rest)
            else done (front ++ c ∷ rest, []))
          ≡ done (front ++ head_of (length front) c ∷ rest, es))
  serve_step front rest c = elim (Bool-cases (not (c == 0) && ready c)) [
    | inl asked ↦ (
      events_of (recv (length front)) (length front) c,
      rw asked (
          client_step unset_msg (recv (length front)) front rest c refl (short (length front))
          ∙ ground arith),
    )
    | inr idle ↦ ([], ground arith)
  ]

  serve_from :
      (rest front : Clients)
      → (es : List Event) × (serve ready recv (length rest) (length front) (front ++ rest)
          ≡ done (front ++ remaining ready recv (length front) rest, es))
  unfolding serve remaining
  serve_from [] front = ([], refl)
  serve_from (c ∷ rest) front =
      let v = head_of (length front) c in
      let (es, ran) = serve_step front rest c in
      let (es', ran') = serve_from rest (front ++ v ∷ []) in
      (
        es ++ es',
        rw (get_or-append front c rest, ran)
            (rw (simp (length-snoc front v, append_assoc) at ran')),
      )

  -- When every answer of `recv` is shorter than the buffer, the loop over the clients gets
  -- through, and frees the slots of exactly those that were ready and sent nothing.
  pub serve-remaining :
      (cs : Clients)
      → (es : List Event) × (serve ready recv (length cs) 0 cs
          ≡ done (remaining ready recv 0 cs, es))
  serve-remaining cs = serve_from cs []

-- What one call does to the clients and reports.
abbrev pub answered : Recv → (i : ℕ) → Clients → Outcome (Clients × List Event)
answered failed i cs = fault
answered (bytes []) i cs = done (set cs i 0, events_of (bytes []) i (get_or cs i 0))
answered (bytes (b ∷ bs)) i cs =
    if ltb (length (b ∷ bs)) buf_size
    then done (cs, events_of (bytes (b ∷ bs)) i (get_or cs i 0))
    else fault

-- Whatever the array of 256 bytes held before: a client that hangs up gives its slot back; a text
-- of at most 255 bytes is printed up to its first NUL; a longer one leaves no room for the NUL, and
-- the `-1` of a failure is taken for an index, so that both write outside the array.
pub handle_client_branches :
    (msg : List ℕ) (r : Recv) (i : ℕ) (cs : Clients)
    → length msg ≡ buf_size
    → handle_client msg r i cs ≡ answered r i cs
unfolding handle_client store_bytes
handle_client_branches msg failed i cs size = refl
handle_client_branches msg (bytes []) i cs size = refl
handle_client_branches msg (bytes (b ∷ bs)) i cs size = elim (dec_lt (length (b ∷ bs)) buf_size) [
  | yes short ↦ rw (handle_client-text msg b bs i cs size short, lt→ltb _ _ short) refl
  | no long ↦ rw (handle_client-long msg (b ∷ bs) i cs size (omega arith)) (ground arith)
]

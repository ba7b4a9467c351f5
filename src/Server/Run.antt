-- ===== src/Server/Run.antt =====
-- `main` of os_02/lab_08/src/net/server.c: the rounds of its loop, one after the other.
use operating_sys.Base.{
  ℕ, suc, ◌+◌, ◌≡◌, refl, sym, ap, ◌∙◌, subst, ◌⊎◌, inl, inr, Bool, true, false, not, Option, none,
  some, List, [], ◌∷◌, ◌++◌, ◌==◌, if◌then◌else◌, Bool-cases, length, replicate, All,
}
use operating_sys.Base.Outcome.{Outcome, done, exited, aborted, fault, out_of_fuel, ◌>>=◌}
use operating_sys.Server.{
  Clients, Event, connected, Recv, place, handle_connection, serve, Answers, round,
  max_clients_count,
}
use operating_sys.Server.Round.{IsShort, remaining, serve-remaining}

-- The rounds that the answers are given for; the server goes on behind them.
unfoldable pub rounds : List Answers → Clients → Outcome (Clients × List Event)
unfolding round
rounds [] cs = done (cs, [])
rounds (a ∷ answers) cs = do
  here ← round a cs
  later ← rounds answers here.0
  done (later.0, here.1 ++ later.1)

-- A failure of `socket`, `bind` or `listen` ends the program with status 1.
unfoldable pub main :
    (socket_made bound listening : Bool) → List Answers → Outcome (Clients × List Event)
unfolding rounds
main socket_made bound listening answers =
    let served = rounds answers (replicate max_clients_count 0) in
    if not socket_made
    then exited 1
    else if not bound
    then exited 1
    else if not listening
    then exited 1
    else served

abbrev pub in_front : ℕ → Option Clients → Option Clients
in_front c none = none
in_front c (some cs) = some (c ∷ cs)

-- The table with `sd` in its first free slot, if there is one.
abbrev pub placed : (sd : ℕ) → Clients → Option Clients
placed sd [] = none
placed sd (c ∷ cs) = if c == 0 then some (sd ∷ cs) else in_front c (placed sd cs)

-- A round in which `select` and `accept` succeed and `recv` gives short texts.
pub record IsGood (a : Answers) : Type 0 where
  pub selected : a.selected ≡ true
  pub sd : ℕ
  pub accepted : a.accepted ≡ some sd
  pub short : (i : ℕ) → IsShort (a.recv i)

-- The table of the next `select`, `none` once a client finds no free slot.
abbrev pub joined : (master_ready : Bool) (accepted : Option ℕ) → Clients → Option Clients
joined false accepted cs = some cs
joined true none cs = none
joined true (some sd) cs = placed sd cs

-- The tables behind the rounds, whose events are left out.
unfoldable pub tables_after : List Answers → Clients → Outcome Clients
tables_after [] cs = done cs
tables_after (a ∷ answers) cs = elim (joined a.master_ready a.accepted cs) [
  | none ↦ exited 1
  | some t ↦ tables_after answers (remaining a.ready a.recv 0 t)
]

abbrev pub table_of : Outcome (Clients × List Event) → Outcome Clients
table_of o = do (cs, es) ← o; done cs

abbrev second : Option (ℕ × Clients) → Option Clients
second none = none
second (some (i, cs)) = some cs

place-placed : (sd i : ℕ) (cs : Clients) → second (place sd i cs) ≡ placed sd cs
unfolding place
place-placed sd i [] = refl
place-placed sd i (c ∷ cs) = elim (Bool-cases (c == 0)) [
  | inl free ↦ rw free refl
  | inr taken ↦ rw (taken, ← place-placed sd (i + 1) cs) (pass (place sd (i + 1) cs))
]
  where
    pass :
        (o : Option (ℕ × Clients))
        → second (elim o [ none ↦ none | some (j, r) ↦ some (j, c ∷ r) ]) ≡ in_front c (second o)
    pass none = refl
    pass (some (j, r)) = refl

length-remaining :
    (ready : ℕ → Bool) (recv : ℕ → Recv) (i : ℕ) (cs : Clients)
    → length (remaining ready recv i cs) ≡ length cs
unfolding remaining
length-remaining ready recv i [] = refl
length-remaining ready recv i (c ∷ cs) = ap suc (length-remaining ready recv (i + 1) cs)

length-placed : (sd : ℕ) (cs t : Clients) → placed sd cs ≡ some t → length t ≡ length cs
length-placed sd [] t e = cc
length-placed sd (c ∷ cs) t e = elim (Bool-cases (c == 0)) [
  | inl free ↦ first (rw free at e)
  | inr taken ↦ further (placed sd cs) (λ r. length-placed sd cs r) (rw taken at e)
]
  where
    first : some (sd ∷ cs) ≡ some t → length t ≡ length (c ∷ cs)
    first same = let whole : sd ∷ cs ≡ t = cc in sym (ap length whole)

    further :
        (o : Option Clients)
        → ((r : Clients) → o ≡ some r → length r ≡ length cs)
        → in_front c o ≡ some t
        → length t ≡ length (c ∷ cs)
    further none sizes same = cc
    further (some r) sizes same =
        let whole : c ∷ r ≡ t = cc in sym (ap length whole) ∙ ap suc (sizes r refl)

-- The first half of a round: the clients that are served in the second half, or the end.
connection :
    (a : Answers) (cs : Clients)
    → IsGood a
    → (((joined a.master_ready a.accepted cs ≡ none)
          × ((if a.master_ready then handle_connection a.accepted cs else done (cs, []))
              ≡ exited 1))
        ⊎ ((t : Clients) × (es : List Event) × (joined a.master_ready a.accepted cs ≡ some t)
            × ((if a.master_ready then handle_connection a.accepted cs else done (cs, []))
                ≡ done (t, es))
            × (length t ≡ length cs)))
unfolding handle_connection
connection a cs good = elim (Bool-cases a.master_ready) [
  | inl asked ↦ rw (asked, good.accepted) (taken (place good.sd 0 cs) refl)
  | inr idle ↦ rw idle (inr (cs, [], refl, refl, refl))
]
  where
    taken :
        (o : Option (ℕ × Clients))
        → place good.sd 0 cs ≡ o
        → (((placed good.sd cs ≡ none) × (handle_connection (some good.sd) cs ≡ exited 1))
            ⊎ ((t : Clients) × (es : List Event) × (placed good.sd cs ≡ some t)
                × (handle_connection (some good.sd) cs ≡ done (t, es))
                × (length t ≡ length cs)))
    taken none got =
        inl (sym (place-placed good.sd 0 cs) ∙ ap second got, rw (handle_connection, got) refl)
    taken (some (i, t)) got =
        let found = sym (place-placed good.sd 0 cs) ∙ ap second got in
        inr (
          t,
          connected i good.sd ∷ [],
          found,
          rw (handle_connection, got) refl,
          length-placed good.sd cs t found,
        )

-- While `select` and `accept` succeed and no text fills the buffer: the server goes on for as long
-- as each new client finds a free slot, with the tables in which a new client takes the first free
-- slot and a client that hangs up gives its slot back; the first client that finds the ten slots
-- taken ends the server with status 1.
pub main-tables_after :
    (answers : List Answers)
    → All IsGood answers
    → table_of (main true true true answers) ≡ tables_after answers (replicate max_clients_count 0)
unfolding main rounds round tables_after
main-tables_after answers good = from answers (replicate max_clients_count 0) good refl
  where
    dropped :
        (o : Outcome (Clients × List Event)) (es : List Event)
        → table_of (o >>= λ later. done (later.0, es ++ later.1)) ≡ table_of o
    dropped (done a) es = refl
    dropped (exited n) es = refl
    dropped aborted es = refl
    dropped fault es = refl
    dropped out_of_fuel es = refl

    from :
        (answers : List Answers) (cs : Clients)
        → All IsGood answers
        → length cs ≡ 10
        → table_of (rounds answers cs) ≡ tables_after answers cs
    from [] cs good size = refl
    from (a ∷ answers) cs good size = elim (connection a cs good.0) [
      | inl (stays, ends) ↦ rw (tables_after, stays, good.0.selected, ends) refl
      | inr (t, es, stays, goes, same) ↦
          let (es', served) = serve-remaining a.ready a.recv good.0.short t in
          let ten =
            subst (λ n. serve a.ready a.recv n 0 t ≡ done (remaining a.ready a.recv 0 t, es'))
              (same ∙ size) served in
          let later =
            from answers (remaining a.ready a.recv 0 t) good.1
              (length-remaining a.ready a.recv 0 t ∙ same ∙ size) in
          rw (tables_after, stays, good.0.selected, goes, ten)
            (dropped (rounds answers (remaining a.ready a.recv 0 t)) (es ++ es') ∙ later)
    ]

-- ===== src/Server/Table.antt =====
-- The table of clients under new connections.
use operating_sys.Base.{
  ℕ, ◌+◌, ◌≤◌, ◌≡◌, refl, ap, ◌≢◌, ◌⊎◌, inl, inr, none, some, List, [], ◌∷◌, ◌++◌, arith,
  ℕ_discrete, ltb, ◌==◌, if◌then◌else◌, length, All, length-append,
}
use operating_sys.Base.Outcome.{Outcome, done, exited, ◌>>=◌}
use operating_sys.Server.{Clients, Event, connected, place, handle_connection}

-- how many slots are taken
unfoldable pub open_count : Clients → ℕ
open_count [] = 0
open_count (c ∷ cs) = (if c == 0 then 0 else 1) + open_count cs

open_count-le : (cs : Clients) → open_count cs ≤ length cs
unfolding open_count
open_count-le [] = omega arith
open_count-le (c ∷ cs) = ground (arith, open_count-le cs)

place_first :
    (sd i : ℕ) (front rest : Clients)
    → All (λ c. c ≢ 0) front
    → place sd i (front ++ 0 ∷ rest) ≡ some (i + length front, front ++ sd ∷ rest)
unfolding place
place_first sd i [] rest taken = ap (λ n. some (n, sd ∷ rest)) (omega arith)
place_first sd i (c ∷ front) rest taken =
    ground (arith, taken.0, place_first sd (i + 1) front rest taken.1)

place_full : (sd i : ℕ) (cs : Clients) → All (λ c. c ≢ 0) cs → place sd i cs ≡ none
unfolding place
place_full sd i [] taken = refl
place_full sd i (c ∷ cs) taken = ground (arith, taken.0, place_full sd (i + 1) cs taken.1)

-- A new connection takes the first slot that is free, whatever slots are free behind it, and
-- touches no other.
pub handle_connection_first :
    (sd : ℕ) (front rest : Clients)
    → All (λ c. c ≢ 0) front
    → handle_connection (some sd) (front ++ 0 ∷ rest)
      ≡ done (front ++ sd ∷ rest, connected (length front) sd ∷ [])
unfolding handle_connection
handle_connection_first sd front rest taken = ground (arith, place_first sd 0 front rest taken)

handle_connection_full :
    (sd : ℕ) (cs : Clients) → All (λ c. c ≢ 0) cs → handle_connection (some sd) cs ≡ exited 1
unfolding handle_connection
handle_connection_full sd cs taken = ground (arith, place_full sd 0 cs taken)

-- the sizes of the table that an outcome leaves
abbrev pub sizes : Outcome (Clients × List Event) → Outcome (ℕ × ℕ)
sizes o = do (cs, es) ← o; done (length cs, open_count cs)

-- the first free slot, if there is one
abbrev Split : Clients → Type 0
Split cs = (front : Clients) × (rest : Clients) × (cs ≡ front ++ 0 ∷ rest) × All (λ c. c ≢ 0) front

free_parts : (cs : Clients) → (All (λ c. c ≢ 0) cs) ⊎ Split cs
free_parts [] = inl tt
free_parts (c ∷ cs) = elim (ℕ_discrete c 0) [
  | yes e ↦ inr ([], cs, rw e, tt)
  | no ne ↦ elim (free_parts cs) [
    | inl taken ↦ inl (ne, taken)
    | inr (front, rest, e, taken) ↦ inr (c ∷ front, rest, ap (◌∷◌ c) e, (ne, taken))
  ]
]

open_count_full : (cs : Clients) → All (λ c. c ≢ 0) cs → open_count cs ≡ length cs
unfolding open_count
open_count_full [] taken = refl
open_count_full (c ∷ cs) taken = ground (arith, taken.0, open_count_full cs taken.1)

open_count-append : (xs ys : Clients) → open_count (xs ++ ys) ≡ open_count xs + open_count ys
unfolding open_count
open_count-append [] ys = omega arith
open_count-append (x ∷ xs) ys = omega (arith, open_count-append xs ys)

open_count_cons :
    (c : ℕ) (cs : Clients) → open_count (c ∷ cs) ≡ (if c == 0 then 0 else 1) + open_count cs
unfolding open_count
open_count_cons c cs = refl

free_sizes :
    (sd : ℕ) (front rest : Clients)
    → sd ≢ 0
    → All (λ c. c ≢ 0) front
    → sizes (handle_connection (some sd) (front ++ 0 ∷ rest)) ≡ (
        if ltb (open_count (front ++ 0 ∷ rest)) (length (front ++ 0 ∷ rest))
        then done (length (front ++ 0 ∷ rest), open_count (front ++ 0 ∷ rest) + 1)
        else exited 1)
free_sizes sd front rest ne taken = rw (handle_connection_first sd front rest taken) (
    ground (
      arith,
      length-append front (sd ∷ rest),
      length-append front (0 ∷ rest),
      open_count-append front (sd ∷ rest),
      open_count-append front (0 ∷ rest),
      open_count_cons sd rest,
      open_count_cons 0 rest,
      open_count-le front,
      open_count-le rest,
    ))

-- A connection with a descriptor other than 0 makes one more slot taken and keeps the size of the
-- table, as long as a slot is free; with all slots taken it ends the server with status 1.
pub sizes-handle_connection :
    (sd : ℕ) (cs : Clients)
    → sd ≢ 0
    → sizes (handle_connection (some sd) cs)
      ≡ (if ltb (open_count cs) (length cs) then done (length cs, open_count cs + 1) else exited 1)
sizes-handle_connection sd cs ne = elim (free_parts cs) [
  | inl taken ↦ rw (handle_connection_full sd cs taken) (ground (arith, open_count_full cs taken))
  | inr (front, rest, e, taken) ↦ rw e (free_sizes sd front rest ne taken)
]

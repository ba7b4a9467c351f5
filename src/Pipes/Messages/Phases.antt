-- ===== src/Pipes/Messages/Phases.antt =====
-- What holds at each place of the parent of os_01/lab_04/src/04.c, and how the steps keep it.
use operating_sys.Base.{
  ℕ, zero, suc, ◌+◌, ◌≤◌, ◌<◌, ◌≡◌, refl, ap, ◌∙◌, subst, ◌⊎◌, inl, inr, Bool, true, false, List,
  [], ◌∷◌, ◌++◌, append_assoc, arith, ℕ_discrete, ltb, update, length, get_or, drop,
}
use operating_sys.Pipes.{msg}
use operating_sys.Pipes.Messages.{
  Child, unborn, running, finished, reaped, Parent, forking, reading, waiting, returned, ended,
}

-- The messages of the children that have ended, in the order in which they were sent.
abbrev pub Sent : (first second : Bool) → List ℕ → Type 0
Sent false false text = text ≡ []
Sent true false text = text ≡ msg 0
Sent false true text = text ≡ msg 1
Sent true true text = (text ≡ msg 0 ++ msg 1) ⊎ (text ≡ msg 1 ++ msg 0)

abbrev pub is_reaped : Child → ℕ
is_reaped unborn = 0
is_reaped running = 0
is_reaped finished = 0
is_reaped reaped = 1

abbrev pub not_unborn : Child → Bool
not_unborn unborn = false
not_unborn running = true
not_unborn finished = true
not_unborn reaped = true

-- The array behind the loop: the messages, the byte that the array held behind them, and the NUL.
abbrev pub Received : (garbage buffer : List ℕ) → Type 0
Received garbage buffer =
    (text : List ℕ) × Sent true true text
    × (buffer ≡ text ++ (get_or garbage 21 0 ∷ 0 ∷ drop 23 garbage))

-- What holds while the parent is at a place.
abbrev pub Phase : (garbage : List ℕ) → Parent → (pipe buffer : List ℕ) → (ℕ → Child) → Type 0
Phase garbage (forking i) pipe buffer child =
    Sent (ended (child 0)) (ended (child 1)) pipe
    × (buffer ≡ garbage)
    × (is_reaped (child 0) + is_reaped (child 1) ≡ 0)
    × ((j : ℕ) → not_unborn (child j) ≡ ltb j i)
    × (i ≤ 2)
Phase garbage (reading index) pipe buffer child =
    (got : List ℕ) × Sent (ended (child 0)) (ended (child 1)) (got ++ pipe)
    × (length got ≡ index)
    × (buffer ≡ got ++ drop index garbage)
    × (is_reaped (child 0) + is_reaped (child 1) ≡ 0)
    × (not_unborn (child 0) ≡ true)
    × (not_unborn (child 1) ≡ true)
Phase garbage (waiting i) pipe buffer child =
    Received garbage buffer
    × (ended (child 0) ≡ true)
    × (ended (child 1) ≡ true)
    × (is_reaped (child 0) + is_reaped (child 1) ≡ i)
Phase garbage (returned zero) pipe buffer child =
    Received garbage buffer × (ended (child 0) ≡ true) × (ended (child 1) ≡ true)
Phase garbage (returned (suc code)) pipe buffer child = Unit

Sent-first : (e : Bool) (text : List ℕ) → Sent false e text → Sent true e (text ++ msg 0)
Sent-first false text s = rw s refl
Sent-first true text s = inr (rw s refl)

Sent-second : (e : Bool) (text : List ℕ) → Sent e false text → Sent e true (text ++ msg 1)
Sent-second false text s = rw s refl
Sent-second true text s = inl (rw s refl)

send_text :
    (i : ℕ) (child : ℕ → Child) (text : List ℕ)
    → i < 2
    → child i ≡ running
    → Sent (ended (child 0)) (ended (child 1)) text
    → Sent (ended (update child i finished 0)) (ended (update child i finished 1)) (text ++ msg i)
send_text zero child text h e s =
    Sent-first (ended (child 1)) text (subst (λ c. Sent (ended c) (ended (child 1)) text) e s)
send_text (suc zero) child text h e s =
    Sent-second (ended (child 0)) text (subst (λ c. Sent (ended (child 0)) (ended c) text) e s)
send_text (suc (suc i)) child text h e s = absurd (omega arith)

-- Every text of a run is at most the two messages long.
pub Sent-short : (a b : Bool) (text : List ℕ) → Sent a b text → length text ≤ 21
Sent-short false false text s = rw s (omega arith)
Sent-short true false text s = rw s (omega arith)
Sent-short false true text s = rw s (omega arith)
Sent-short true true text (inl s) = rw s (omega arith)
Sent-short true true text (inr s) = rw s (omega arith)

pub Sent-long : (text : List ℕ) → Sent true true text → length text ≡ 21
Sent-long text (inl s) = rw s refl
Sent-long text (inr s) = rw s refl

unborn_cases : (c : Child) → not_unborn c ≡ false → c ≡ unborn
unborn_cases unborn e = refl
unborn_cases running e = cc
unborn_cases finished e = cc
unborn_cases reaped e = cc

-- A child that is changed counts as before where the new state does.
pub keeps {ℓ} :
    {B : Type ℓ} (f : Child → B) (child : ℕ → Child) (i j : ℕ) (c : Child)
    → f (child i) ≡ f c
    → f (update child i c j) ≡ f (child j)
keeps f child i j c e = elim (ℕ_discrete i j) [
  | yes same ↦ ground (arith, e)
  | no other ↦ ground arith
]

pub forks-Phase :
    (garbage pipe buffer : List ℕ) (child : ℕ → Child) (i : ℕ)
    → i < 2
    → Phase garbage (forking i) pipe buffer child
    → Phase garbage (forking (i + 1)) pipe buffer (update child i running)
forks-Phase garbage pipe buffer child i h (sent, same, none_reaped, born, few) =
    let fresh = unborn_cases (child i) (born i ∙ ground arith) in
    let at = λ (j : ℕ). keeps ended child i j running (ap ended fresh) in
    let reaped_at = λ (j : ℕ). keeps is_reaped child i j running (ap is_reaped fresh) in
    (
      rw (at 0, at 1) sent,
      same,
      rw (reaped_at 0, reaped_at 1) none_reaped,
      λ j. elim (ℕ_discrete i j) [ yes e ↦ ground arith | no ne ↦ ground (arith, born j) ],
      omega arith,
    )

pub ended_running :
    (i : ℕ) (child : ℕ → Child)
    → i < 2
    → child i ≡ running
    → ended (child 0) ≡ true
    → ended (child 1) ≡ true
    → ⊥
ended_running zero child h e first second = cc
ended_running (suc zero) child h e first second = cc
ended_running (suc (suc i)) child h e first second = omega arith

pub sends-Phase :
    (garbage pipe buffer : List ℕ) (child : ℕ → Child) (i : ℕ) (p : Parent)
    → i < 2
    → child i ≡ running
    → Phase garbage p pipe buffer child
    → Phase garbage p (pipe ++ msg i) buffer (update child i finished)
sends-Phase garbage pipe buffer child i (forking k) h e (sent, same, none_reaped, born, few) =
    let reaped_at = λ (j : ℕ). keeps is_reaped child i j finished (ap is_reaped e) in
    let born_at = λ (j : ℕ). keeps not_unborn child i j finished (ap not_unborn e) in
    (
      send_text i child pipe h e sent,
      same,
      rw (reaped_at 0, reaped_at 1) none_reaped,
      λ j. born_at j ∙ born j,
      few,
    )
sends-Phase garbage pipe buffer child i (reading k) h e
      (got, sent, size, same, none_reaped, first, second) =
    let reaped_at = λ (j : ℕ). keeps is_reaped child i j finished (ap is_reaped e) in
    let born_at = λ (j : ℕ). keeps not_unborn child i j finished (ap not_unborn e) in
    (
      got,
      rw (← append_assoc got pipe (msg i)) (send_text i child (got ++ pipe) h e sent),
      size,
      same,
      rw (reaped_at 0, reaped_at 1) none_reaped,
      born_at 0 ∙ first,
      born_at 1 ∙ second,
    )
sends-Phase garbage pipe buffer child i (waiting k) h e (received, first, second, count) =
    absurd (ended_running i child h e first second)
sends-Phase garbage pipe buffer child i (returned zero) h e (received, first, second) =
    absurd (ended_running i child h e first second)
sends-Phase garbage pipe buffer child i (returned (suc code)) h e phase = tt

-- ===== src/Files/Race/Letters.antt =====
-- Which letters os_02/lab_05/src/03_thread.c can leave in the file.
use operating_sys.Base.{
  ℕ, zero, suc, ◌+◌, ◌*◌, ◌≤◌, ◌<◌, ◌≡◌, refl, ◌∙◌, subst, ◌⊎◌, inl, inr, none, some, List, [], ◌∷◌,
  arith, dec_lt, ℕ_discrete, leb, ◌==◌, if◌then◌else◌, leb→le, Bool-cases, length, get_elem?,
}
use operating_sys.Files.{write_byte}
use operating_sys.Files.Race.{
  Thread, absent, opened, writing, stepping, ended, System, loop, Move, enter, write, write_fails,
  step, Step, filled, created, moved, Reach, start, later,
}

-- A letter that may stand at place `k` when `n` calls of `write` have failed.
abbrev pub InPlace : (n k c : ℕ) → Type 0
InPlace n k c = (97 + k ≤ c) × (c ≤ 98 + 2 * (k + n)) × (c ≤ 122)

-- Where a thread stands: the letter that it is about to write, or has written, and how far it is.
abbrev pub OnCourse : (n : ℕ) → Thread → Type 0
OnCourse n absent = Unit
OnCourse n opened = Unit
OnCourse n (writing c o) = InPlace n o c
OnCourse n (stepping c o) = (97 + o ≤ c + 1) × (c ≤ 96 + 2 * (o + n))
OnCourse n (ended o) = 13 ≤ o + n

-- the places that a thread has written
abbrev pub written : Thread → ℕ
written absent = 0
written opened = 0
written (writing c o) = o
written (stepping c o) = o
written (ended o) = o

write_byte_at :
    (file : List ℕ) (o b k : ℕ)
    → o ≤ length file
    → get_elem? (write_byte file o b) k ≡ (if o == k then some b else get_elem? file k)
unfolding write_byte
write_byte_at [] zero b zero h = refl
write_byte_at [] zero b (suc k) h = ground arith
write_byte_at [] (suc o) b k h = absurd (omega arith)
write_byte_at (x ∷ file) zero b zero h = refl
write_byte_at (x ∷ file) zero b (suc k) h = ground arith
write_byte_at (x ∷ file) (suc o) b zero h = ground arith
write_byte_at (x ∷ file) (suc o) b (suc k) h = ground (arith, write_byte_at file o b k)

-- A letter in its place.
abbrev pub Letter : List ℕ → (n k : ℕ) → Type 0
Letter file n k = (c : ℕ) × (get_elem? file k ≡ some c) × InPlace n k c

-- More failures leave more room.
le-Letter : (file : List ℕ) (n m k : ℕ) → n ≤ m → Letter file n k → Letter file m k
le-Letter file n m k le (c, here, (low, high, last)) = (c, here, (low, omega arith, last))

le-OnCourse : {n m : ℕ} → n ≤ m → (t : Thread) → OnCourse n t → OnCourse m t
le-OnCourse le absent on = tt
le-OnCourse le opened on = tt
le-OnCourse le (writing c o) (low, high, last) = (low, omega arith, last)
le-OnCourse le (stepping c o) (low, high) = (low, omega arith)
le-OnCourse le (ended o) on = omega arith

pub record Inv (before : List ℕ) (s : System) : Type 0 where
  pub number : s.thd_n ≤ 1
  pub course : (i : ℕ) → OnCourse s.failures (s.thread i)
  pub behind : (i k : ℕ) → k < written (s.thread i) → Letter s.file s.failures k
  pub elsewhere : (k : ℕ) → Letter s.file s.failures k ⊎ (get_elem? s.file k ≡ get_elem? before k)

get_elem?_past {ℓ} : {A : Type ℓ} (xs : List A) → get_elem? xs (length xs) ≡ none
get_elem?_past [] = refl
get_elem?_past (x ∷ xs) = get_elem?_past xs

fits : (file : List ℕ) (n o : ℕ) → ((k : ℕ) → k < o → Letter file n k) → o ≤ length file
fits file n o all = elim (dec_lt (length file) o) [
  | yes short ↦ let (c, here, place) = all (length file) short in cc (get_elem?_past file, here)
  | no long ↦ omega arith
]

-- What a move makes of the thread and of the file.
record Effect (s : System) (t : Thread) (file : List ℕ) (n : ℕ) (u : Thread) : Type 0 where
  more : s.failures ≤ n
  course : OnCourse n u
  kept : (k : ℕ) → Letter s.file s.failures k → Letter file n k
  new : (k : ℕ) → k < written u → k < written t ⊎ Letter file n k
  others : (k : ℕ) → Letter file n k ⊎ (get_elem? file k ≡ get_elem? s.file k)

OnCourse-loop : (n c o : ℕ) → 97 + o ≤ c → c ≤ 98 + 2 * (o + n) → OnCourse n (loop c o)
OnCourse-loop n c o low high = elim (Bool-cases (leb c 122)) [
  | inl more ↦ rw more (low, high, leb→le c 122 more)
  | inr over ↦ rw over (ground arith)
]

written-loop : (c o : ℕ) → written (loop c o) ≡ o
written-loop c o = ground arith

Move-Effect :
    {s : System} {t u : Thread} {file : List ℕ} {n : ℕ}
    → Move s t file n u
    → s.thd_n ≤ 1
    → OnCourse s.failures t
    → ((k : ℕ) → k < written t → Letter s.file s.failures k)
    → Effect s t file n u
Move-Effect {s} enter small on all = record {
  more = omega arith;
  course = OnCourse-loop s.failures (97 + s.thd_n) 0 (omega arith) (omega arith);
  kept = λ k l. l;
  new = λ k b. absurd (omega (arith, written-loop (97 + s.thd_n) 0));
  others = λ k. inr refl;
}
Move-Effect {s} (write {c} {o}) small on all =
    let at = λ (k : ℕ). write_byte_at s.file o c k (fits s.file s.failures o all) in
    record {
      more = omega arith;
      course = (omega arith, omega arith);
      kept = λ k l. elim (ℕ_discrete o k) [
        | yes e ↦ (c, ground (arith, at k), subst (λ j. InPlace s.failures j c) e on)
        | no ne ↦ (l.0, ground (arith, at k, l.1), l.2)
      ];
      new = λ k b. elim (ℕ_discrete o k) [
        | yes e ↦ inr (c, ground (arith, at k), subst (λ j. InPlace s.failures j c) e on)
        | no ne ↦ inl (omega arith)
      ];
      others = λ k. elim (ℕ_discrete o k) [
        | yes e ↦ inl (c, ground (arith, at k), subst (λ j. InPlace s.failures j c) e on)
        | no ne ↦ inr (ground (arith, at k))
      ];
    }
Move-Effect {s} (write_fails {c} {o}) small on all = record {
  more = omega arith;
  course = (omega arith, omega arith);
  kept = λ k l. le-Letter s.file s.failures (s.failures + 1) k (omega arith) l;
  new = λ k b. inl b;
  others = λ k. inr refl;
}
Move-Effect {s} (step {c} {o}) small on all = record {
  more = omega arith;
  course = OnCourse-loop s.failures (c + (s.thd_n + 1)) o (omega arith) (omega arith);
  kept = λ k l. l;
  new = λ k b. inl (omega (arith, written-loop (c + (s.thd_n + 1)) o));
  others = λ k. inr refl;
}

Step-Inv : {before : List ℕ} {s t : System} → Step s t → Inv before s → Inv before t
Step-Inv (filled {i} small e) inv = record {
  number = omega arith;
  course = inv.course;
  behind = inv.behind;
  elsewhere = inv.elsewhere;
}
Step-Inv {s} (created {i} e) inv = record {
  number = inv.number;
  course = λ j. elim (ℕ_discrete i j) [
    | yes same ↦ ground arith
    | no other ↦ ground (arith, inv.course j)
  ];
  behind = λ j k b. elim (ℕ_discrete i j) [
    | yes same ↦ absurd (ground arith)
    | no other ↦ inv.behind j k (ground arith)
  ];
  elsewhere = inv.elsewhere;
}
Step-Inv {before} {s} (moved i {f} {n} {t = u} mv) inv =
    let eff = Move-Effect mv inv.number (inv.course i) (inv.behind i) in
    record {
      number = inv.number;
      course = λ j. elim (ℕ_discrete i j) [
        | yes same ↦ ground (arith, eff.course)
        | no other ↦ le-OnCourse eff.more _ (ground (arith, inv.course j))
      ];
      behind = λ j k b. elim (ℕ_discrete i j) [
        | yes same ↦ made (eff.new k (ground arith)) (λ l. eff.kept k (inv.behind i k l))
        | no other ↦ eff.kept k (inv.behind j k (ground arith))
      ];
      elsewhere = λ k. elim (eff.others k) [
        | inl l ↦ inl l
        | inr same ↦ elim (inv.elsewhere k) [
          | inl l ↦ inl (eff.kept k l)
          | inr old ↦ inr (same ∙ old)
        ]
      ];
    }
  where
    made : {A B : Type 0} → A ⊎ B → (A → B) → B
    made (inl a) f = f a
    made (inr b) f = b

Reach-Inv : {before : List ℕ} {s : System} → Reach before s → Inv before s
Reach-Inv start = record {
  number = omega arith;
  course = λ i. tt;
  behind = λ i k b. absurd (omega arith);
  elsewhere = λ k. inr refl;
}
Reach-Inv (later r st) = Step-Inv st (Reach-Inv r)

-- What a thread that has ended has tried.
abbrev pub HasTried : (n : ℕ) → Thread → Type 0
HasTried n absent = Unit
HasTried n opened = Unit
HasTried n (writing c o) = Unit
HasTried n (stepping c o) = Unit
HasTried n (ended o) = 13 ≤ o + n

tried : (n : ℕ) (t : Thread) → OnCourse n t → HasTried n t
tried n absent on = tt
tried n opened on = tt
tried n (writing c o) on = tt
tried n (stepping c o) on = tt
tried n (ended o) on = on

-- In every state that the threads and `main` can reach, in any order of their steps, when `n` calls
-- of `write` have failed: every place `k` of the file either holds a letter, at least the `k`th
-- behind `a` and at most the `2 * (k + n)`th behind `b`; or it holds what it held at the start (or
-- nothing still), and no thread has written as far. A thread that has ended has written at least
-- `13 - n` letters.
pub letters_in_place :
    {before : List ℕ} {s : System}
    → Reach before s
    → (i k : ℕ)
    → (Letter s.file s.failures k
        ⊎ ((get_elem? s.file k ≡ get_elem? before k) × (written (s.thread i) ≤ k)))
      × HasTried s.failures (s.thread i)
letters_in_place {s} r i k =
    let inv = Reach-Inv r in
    (
      elim (dec_lt k (written (s.thread i))) [
        | yes past ↦ inl (inv.behind i k past)
        | no further ↦ elim (inv.elsewhere k) [ inl l ↦ inl l | inr old ↦ inr (old, omega arith) ]
      ],
      tried s.failures (s.thread i) (inv.course i),
    )

-- ===== src/Files/Own.antt =====
-- os_02/lab_05/src/02_thread.c: threads that open one file each for itself. Every order of their
-- steps is a path of Reach.
use operating_sys.Base.{
  ℕ, zero, suc, ◌+◌, ◌<◌, ◌≡◌, refl, sym, ◌∙◌, ◌≢◌, none, some, List, [], ◌∷◌, ◌++◌, append_assoc,
  append-nil, arith, ℕ_discrete, ◌==◌, if◌then◌else◌, update, get_elem?, drop,
}
use operating_sys.Files.{read_one}

-- What `open_read` does next: a `read` at its offset, the output of the byte that it gave, or
-- nothing more.
pub data Thread : Type 0 where
  reading : (offset : ℕ) → Thread
  writing : (c offset : ℕ) → Thread
  ended : Thread

-- The threads, and the bytes of the output, each with the thread that wrote it.
pub record System : Type 0 where
  pub thread : ℕ → Thread
  pub printed : List (ℕ × ℕ)

pub data Move (file : List ℕ) (i : ℕ) (out : List (ℕ × ℕ))
    : Thread → List (ℕ × ℕ) → Thread → Type 0 where
  read :
      {offset c : ℕ}
      → read_one (some file) offset ≡ some c
      → Move file i out (reading offset) out (writing c (offset + 1))
  end_of_file :
      {offset : ℕ} → read_one (some file) offset ≡ none → Move file i out (reading offset) out ended
  write : {c offset : ℕ} → Move file i out (writing c offset) (out ++ (i, c) ∷ []) (reading offset)

-- Any of the first `n` threads may move.
pub data Step (file : List ℕ) (n : ℕ) (s : System) : System → Type 0 where
  pick :
      (i : ℕ) {out : List (ℕ × ℕ)} {t : Thread}
      → i < n
      → Move file i s.printed (s.thread i) out t
      → Step file n s (record { thread = update s.thread i t; printed = out })

abbrev pub initial : System
initial = record { thread = λ i. reading 0; printed = [] }

pub data Reach (file : List ℕ) (n : ℕ) : System → Type 0 where
  start : Reach file n initial
  later : {s t : System} → Reach file n s → Step file n s t → Reach file n t

-- the bytes that thread `i` has written, in order
abbrev pub printed_by : ℕ → List (ℕ × ℕ) → List ℕ
printed_by i [] = []
printed_by i ((j, c) ∷ out) = if i == j then c ∷ printed_by i out else printed_by i out

abbrev pub left : List ℕ → Thread → List ℕ
left file (reading offset) = drop offset file
left file (writing c offset) = c ∷ drop offset file
left file ended = []

printed_by-snoc :
    (i j c : ℕ) (out : List (ℕ × ℕ))
    → printed_by i (out ++ (j, c) ∷ [])
      ≡ (if i == j then printed_by i out ++ c ∷ [] else printed_by i out)
printed_by-snoc i j c [] = ground arith
printed_by-snoc i j c ((k, d) ∷ out) = ground (arith, printed_by-snoc i j c out)

drop-some : (xs : List ℕ) (k c : ℕ) → get_elem? xs k ≡ some c → drop k xs ≡ c ∷ drop (k + 1) xs
drop-some [] k c e = cc
drop-some (x ∷ xs) zero c e = cc e
drop-some (x ∷ xs) (suc k) c e = rw (suc_one k) (drop-some xs k c e)
  where
    suc_one : (k : ℕ) → suc k + 1 ≡ suc (k + 1)
    suc_one k = omega arith

drop-none : (xs : List ℕ) (k : ℕ) → get_elem? xs k ≡ none → drop k xs ≡ []
drop-none [] zero e = refl
drop-none [] (suc k) e = refl
drop-none (x ∷ xs) zero e = cc
drop-none (x ∷ xs) (suc k) e = drop-none xs k e

-- A move of thread `i` keeps what it has written and what it will still write together.
Move-left :
    {file : List ℕ} {i : ℕ} {out out' : List (ℕ × ℕ)} {t u : Thread}
    → Move file i out t out' u
    → printed_by i out' ++ left file u ≡ printed_by i out ++ left file t
Move-left {file} (read {offset} {c} given) = rw (drop-some file offset c given) refl
Move-left {file} (end_of_file {offset} end) = rw (drop-none file offset end) refl
Move-left {file} {i} {out} (write {c} {offset}) =
    let mine = printed_by-snoc i i c out in
    ground (arith, mine, append_assoc (printed_by i out) (c ∷ []) (drop offset file))

Move-other :
    {file : List ℕ} {i : ℕ} {out out' : List (ℕ × ℕ)} {t u : Thread}
    → Move file i out t out' u
    → (j : ℕ) → i ≢ j
    → printed_by j out' ≡ printed_by j out
Move-other (read given) j ne = refl
Move-other (end_of_file end) j ne = refl
Move-other {i} {out} (write {c}) j ne = ground (arith, printed_by-snoc j i c out)

Step-whole :
    {file : List ℕ} {n : ℕ} {s t : System}
    → Step file n s t
    → (j : ℕ) → printed_by j s.printed ++ left file (s.thread j) ≡ file
    → printed_by j t.printed ++ left file (t.thread j) ≡ file
Step-whole (pick i below mv) j whole = elim (ℕ_discrete i j) [
  | yes same ↦ ground (arith, Move-left mv)
  | no other ↦ ground (arith, Move-other mv j other)
]

-- At any time and in whatever order the threads move, what one of them has written so far is the
-- beginning of the file, in the order of the file, and the rest is what `left` says: nothing once
-- the thread has ended.
pub printed_by-left :
    {file : List ℕ} {n : ℕ} {s : System}
    → Reach file n s
    → (i : ℕ) → printed_by i s.printed ++ left file (s.thread i) ≡ file
printed_by-left start i = refl
printed_by-left (later r st) i = Step-whole st i (printed_by-left r i)

-- However the threads take turns: when thread `i` has ended, the bytes that it has written are
-- those of the file, in their order.
pub printed_by-ended :
    {file : List ℕ} {n : ℕ} {s : System}
    → Reach file n s
    → (i : ℕ) → s.thread i ≡ ended
    → printed_by i s.printed ≡ file
printed_by-ended {file} {s = s} r i e =
    sym (append-nil (printed_by i s.printed)) ∙ (rw e at (printed_by-left r i))

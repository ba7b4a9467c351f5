-- ===== src/Files/Shared/Once.antt =====
-- Threads that share an offset print every byte once (os_02/lab_05/src/01_thread.c).
use mathlib.Core.Quot
use mathlib.Core.Quot.{Quot}
use operating_sys.Base.{
  ℕ, zero, suc, ◌+◌, ◌<◌, ◌≡◌, refl, ap, List, [], ◌∷◌, arith, ℕ_discrete, drop,
}
use operating_sys.Base.Family.{sum_over, sum_over-update, sum_over_zero}
use operating_sys.Files.Shared.{
  Thread, ended, System, Move, scan, end_of_file, print, Step, pick, initial, Reach, start, later,
  count, weight, count-append, scan-count, scan_none, scan_past,
}

module _ {file : List ℕ} {s : System} where
  Move-count :
      {t u : Thread} {o : ℕ} {out : List ℕ} (b : ℕ)
      → Move file s t o out u
      → count b out + weight b u + count b (drop o file)
        ≡ count b s.printed + weight b t + count b (drop s.offset file)
  Move-count b (scan {waiting} {c} given) =
      omega (arith, scan-count file waiting s.offset b c given)
  Move-count b (end_of_file {waiting} given) =
      let (none_held, past, past') = scan_none file waiting s.offset given in
      omega (arith, ap (count b) none_held, ap (count b) past, ap (count b) past')
  Move-count b (print {c} {waiting}) = omega (arith, count-append b s.printed (c ∷ []))

  -- What is behind the end stays there, and a thread ends only there.
  Move-past :
      {t u : Thread} {o : ℕ} {out : List ℕ}
      → Move file s t o out u
      → drop s.offset file ≡ []
      → drop o file ≡ []
  Move-past (scan {waiting} given) past = scan_past file waiting s.offset past
  Move-past (end_of_file {waiting} given) past = scan_past file waiting s.offset past
  Move-past print past = past

  Move-ended :
      {t u : Thread} {o : ℕ} {out : List ℕ} → Move file s t o out u → u ≡ ended → drop o file ≡ []
  Move-ended (scan given) e = cc
  Move-ended (end_of_file {waiting} given) e = (scan_none file waiting s.offset given).2
  Move-ended print e = cc

-- A byte is printed, or held by a thread, or still in the file; and nothing is left in the file
-- once a thread has ended.
pub record Inv (file : List ℕ) (n : ℕ) (s : System) : Type 0 where
  pub shared_out :
      (b : ℕ)
      → count b s.printed + sum_over (weight b) n s.thread + count b (drop s.offset file)
        ≡ count b file
  pub past : (i : ℕ) → i < n → s.thread i ≡ ended → drop s.offset file ≡ []

Step-Inv : {file : List ℕ} {n : ℕ} {s t : System} → Step file n s t → Inv file n s → Inv file n t
Step-Inv {n} {s} (pick i {t = u} below mv) inv = record {
  shared_out = λ b.
      omega
        (arith, Move-count b mv, inv.shared_out b, sum_over-update (weight b) n i s.thread u below);
  past = λ j bj e. elim (ℕ_discrete i j) [
    | yes same ↦ Move-ended mv (ground arith)
    | no other ↦ Move-past mv (inv.past j bj (ground arith))
  ];
}

Reach-Inv : {file : List ℕ} {n : ℕ} {s : System} → Reach file n s → Inv file n s
Reach-Inv {n} start = record {
  shared_out = λ b. omega (arith, sum_over_zero (weight b) n initial.thread (λ i. refl));
  past = λ i below e. cc;
}
Reach-Inv (later r st) = Step-Inv st (Reach-Inv r)

-- Two texts of the same bytes, each as often, in any order.
abbrev pub SameBytes : List ℕ → List ℕ → Type 0
SameBytes xs ys = (b : ℕ) → count b xs ≡ count b ys

abbrev pub Bag : Type 0
Bag = Quot SameBytes

abbrev pub bag_of : List ℕ → Bag
bag_of xs = Quot.mk xs

sum_over-ended :
    (b n : ℕ) (th : ℕ → Thread) → ((i : ℕ) → i < n → th i ≡ ended) → sum_over (weight b) n th ≡ 0
unfolding sum_over
sum_over-ended b zero th all = refl
sum_over-ended b (suc n) th all = omega (
  arith,
  ap (weight b) (all n (omega arith)),
  sum_over-ended b n th (λ i below. all i (omega arith)),
)

-- However the threads take turns, when all of them (one at least) have ended they have printed the
-- bytes of the file, each once: as bags, where the order is forgotten, output and file are equal.
pub printed_once :
    {file : List ℕ} {n : ℕ} {s : System}
    → Reach file n s
    → 0 < n
    → ((i : ℕ) → i < n → s.thread i ≡ ended)
    → bag_of s.printed ≡ bag_of file
printed_once {file} {n} {s} r some_thread all =
    let inv = Reach-Inv r in
    let past = inv.past 0 some_thread (all 0 some_thread) in
    Quot.sound
      (λ b. omega (arith, inv.shared_out b, sum_over-ended b n s.thread all, ap (count b) past))

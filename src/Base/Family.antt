-- ===== src/Base/Family.antt =====
-- Sums over the processes of a system, which are a function of their number.
use Prim.Native.Nat.{ℕ, zero, suc, ◌+◌, ◌≤◌, ◌<◌}
use mathlib.Core.Path.{◌≡◌, refl}
use mathlib.Core.Logic.{◌≢◌}
use native.Mathlib.Decide.{ℕ_discrete}
use native.Mathlib.Omega.{arith}
use operating_sys.Base.Tests.{update}

module _ {ℓ} {A : Type ℓ} (weight : A → ℕ) where
  unfoldable pub sum_over : ℕ → (ℕ → A) → ℕ
  sum_over zero f = 0
  sum_over (suc n) f = weight (f n) + sum_over n f

  -- A change at a number that does not count.
  sum_over_beyond : (n i : ℕ) (f : ℕ → A) (a : A) → n ≤ i → sum_over n (update f i a) ≡ sum_over n f
  unfolding sum_over
  sum_over_beyond zero i f a far = refl
  sum_over_beyond (suc n) i f a far = ground (arith, sum_over_beyond n i f a)

  -- A change of one process moves the sum by the difference of the weights.
  pub sum_over-update :
      (n i : ℕ) (f : ℕ → A) (a : A)
      → i < n
      → sum_over n (update f i a) + weight (f i) ≡ sum_over n f + weight a
  unfolding sum_over
  sum_over-update zero i f a below = absurd (omega arith)
  sum_over-update (suc n) i f a below = elim (ℕ_discrete i n) [
    | yes last ↦ ground (arith, sum_over_beyond n i f a)
    | no other ↦ ground (arith, sum_over-update n i f a)
  ]

  pub le-sum_over : (n i : ℕ) (f : ℕ → A) → i < n → weight (f i) ≤ sum_over n f
  unfolding sum_over
  le-sum_over zero i f below = absurd (omega arith)
  le-sum_over (suc n) i f below = elim (ℕ_discrete i n) [
    | yes last ↦ ground arith
    | no other ↦ omega (arith, le-sum_over n i f)
  ]

  pub add-le-sum_over :
      (n i j : ℕ) (f : ℕ → A) → i < n → j < n → i ≢ j → weight (f i) + weight (f j) ≤ sum_over n f
  unfolding sum_over
  add-le-sum_over zero i j f bi bj ne = absurd (omega arith)
  add-le-sum_over (suc n) i j f bi bj ne = elim (ℕ_discrete i n) [
    | yes last ↦ ground (arith, le-sum_over n j f)
    | no other ↦ elim (ℕ_discrete j n) [
      | yes last ↦ ground (arith, le-sum_over n i f)
      | no other' ↦ omega (arith, add-le-sum_over n i j f)
    ]
  ]

  pub sum_over_zero : (n : ℕ) (f : ℕ → A) → ((i : ℕ) → weight (f i) ≡ 0) → sum_over n f ≡ 0
  unfolding sum_over
  sum_over_zero zero f h = refl
  sum_over_zero (suc n) f h = omega (arith, h n, sum_over_zero n f h)

  -- A positive sum has a positive part.
  pub find_positive :
      (n : ℕ) (f : ℕ → A) → 0 < sum_over n f → (i : ℕ) × (i < n) × (0 < weight (f i))
  unfolding sum_over
  find_positive zero f h = absurd (omega arith)
  find_positive (suc n) f h = elim (ℕ_discrete (weight (f n)) 0) [
    | yes none_here ↦
        let (i, below, here) = find_positive n f (omega arith) in (i, omega arith, here)
    | no here ↦ (n, omega arith, omega arith)
  ]

module _ {ℓ} {A : Type ℓ} (v w u : A → ℕ) where
  -- Weights that add up to at most a third one do so in the sums.
  pub sum_over-add-le :
      ((a : A) → v a + w a ≤ u a)
      → (n : ℕ) (f : ℕ → A) → sum_over v n f + sum_over w n f ≤ sum_over u n f
  unfolding sum_over
  sum_over-add-le h zero f = omega arith
  sum_over-add-le h (suc n) f = omega (arith, h (f n), sum_over-add-le h n f)

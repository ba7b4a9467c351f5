-- ===== src/ProcInfo/Buffers.antt =====
-- Buffers of NULs with a text at their start, in os_02/lab_04/src/part_01/main.c.
use operating_sys.Base.{
  ℕ, zero, suc, ◌+◌, ◌-◌, ◌≤◌, ◌<◌, ◌≡◌, refl, ap, ◌∙◌, List, [], ◌∷◌, ◌++◌, arith, length, drop,
  replicate, length-append, length-replicate,
}
use operating_sys.Base.Outcome.{done}
use operating_sys.Base.Memory.{overwrite, string_of, IsText, overwrite_lem, string_of-text}

abbrev pub zeros : ℕ → List ℕ
zeros n = replicate n 0

pub drop-zeros : (k j m : ℕ) → m ≡ k + j → drop k (zeros m) ≡ zeros j
drop-zeros zero j m e = ap zeros (omega (arith, e))
drop-zeros (suc k) j zero e = absurd (omega (arith, e))
drop-zeros (suc k) j (suc m) e = drop-zeros k j m (omega (arith, e))

pub drop-all : (n : ℕ) (xs : List ℕ) → length xs ≤ n → drop n xs ≡ []
drop-all zero [] h = refl
drop-all zero (x ∷ xs) h = absurd (omega arith)
drop-all (suc n) [] h = refl
drop-all (suc n) (x ∷ xs) h = drop-all n xs (omega arith)

-- A text that leaves `k` bytes and one more of the NULs.
pub overwrite-zeros :
    (text : List ℕ) (k n : ℕ)
    → n ≡ length text + suc k
    → overwrite (zeros n) text ≡ text ++ zeros (suc k)
overwrite-zeros text k n e =
    overwrite_lem (zeros n) text (omega (arith, e, length-replicate {A = ℕ} n 0))
    ∙ ap (◌++◌ text) (drop-zeros (length text) (suc k) n e)

pub filled :
    (n : ℕ) (text : List ℕ)
    → IsText text
    → length text < n
    → string_of (overwrite (zeros n) text) ≡ done text
filled n text t fits =
    ap string_of (overwrite-zeros text (n - length text - 1) n (omega arith))
    ∙ string_of-text text (zeros (n - length text - 1)) t

pub IsText-append : (xs ys : List ℕ) → IsText xs → IsText ys → IsText (xs ++ ys)
IsText-append [] ys a b = b
IsText-append (x ∷ xs) ys a b = (a.0, IsText-append xs ys a.1 b)

pub drop-IsText : (k : ℕ) (xs : List ℕ) → IsText xs → IsText (drop k xs)
drop-IsText zero xs t = t
drop-IsText (suc k) [] t = tt
drop-IsText (suc k) (x ∷ xs) t = drop-IsText k xs t.1

-- A text and NULs behind it, without the first `k` bytes.
pub drop-padded :
    (k : ℕ) (text : List ℕ) (m : ℕ)
    → k < length text + suc m
    → (j : ℕ) × (drop k (text ++ zeros (suc m)) ≡ drop k text ++ zeros (suc j))
      × (k + length (drop k text ++ zeros (suc j)) ≡ length text + suc m)
drop-padded zero text m h =
    (m, refl, omega (arith, length-append text (zeros (suc m)), length-replicate {A = ℕ} (suc m) 0))
drop-padded (suc k) [] m h = (
  m - suc k,
  drop-zeros (suc k) (suc (m - suc k)) (suc m) (omega arith),
  omega (arith, length-replicate {A = ℕ} (suc (m - suc k)) 0),
)
drop-padded (suc k) (x ∷ text) m h =
    let (j, same, size) = drop-padded k text m (omega arith) in (j, same, omega (arith, size))

-- ===== src/Files/Doubled.antt =====
-- What os_02/lab_05/src/02.c prints.
use operating_sys.Base.{
  ℕ, zero, suc, ◌+◌, ◌<◌, ◌≡◌, refl, none, some, List, [], ◌∷◌, ◌++◌, append_assoc, arith, length,
  get_elem?,
}
use operating_sys.Base.Outcome.{done}
use operating_sys.Base.{length-snoc}
use operating_sys.Files.{two_opens, main_02}

abbrev pub doubled : List ℕ → List ℕ
doubled [] = []
doubled (b ∷ bs) = b ∷ b ∷ doubled bs

get_elem?-append :
    (front : List ℕ) (xs : List ℕ) → get_elem? (front ++ xs) (length front) ≡ get_elem? xs 0
get_elem?-append [] xs = refl
get_elem?-append (x ∷ front) xs = get_elem?-append front xs

two_opens-doubled :
    (front rest : List ℕ) (fuel offset : ℕ)
    → offset ≡ length front
    → length rest < fuel
    → two_opens (some (front ++ rest)) fuel offset offset ≡ done (doubled rest)
unfolding two_opens
two_opens-doubled front rest zero offset e enough = absurd (omega arith)
two_opens-doubled front [] (suc fuel) offset e enough = rw (e, get_elem?-append front []) refl
two_opens-doubled front (b ∷ rest) (suc fuel) offset e enough =
    let later = rw append_assoc at (
      two_opens-doubled (front ++ b ∷ []) rest fuel (offset + 1)
        (omega (arith, e, length-snoc front b)) (omega arith)) in
    rw (e, get_elem?-append front (b ∷ rest), ← e, later) refl

-- Two descriptors of their own have offsets of their own: every byte of the file is printed twice
-- in a row, and the loop ends after one round for every byte and one more. Where the file cannot be
-- opened, only the newline is printed.
pub main_02-doubled :
    (file : List ℕ) (fuel : ℕ)
    → length file < fuel
    → (main_02 (some file) fuel ≡ done (doubled file ++ 10 ∷ []))
      × (main_02 none fuel ≡ done (10 ∷ []))
unfolding main_02
main_02-doubled file zero enough = absurd (omega arith)
main_02-doubled file (suc fuel) enough =
    (rw (two_opens-doubled [] file (suc fuel) 0 refl enough) refl, unfold two_opens in refl)

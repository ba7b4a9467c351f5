-- ===== src/Files/Letters.antt =====
-- What os_02/lab_05/src/03.c leaves in the file.
use operating_sys.Base.{
  ℕ, zero, suc, ◌+◌, ◌%◌, ◌≡◌, refl, ap, true, false, List, [], ◌∷◌, ◌++◌, append_assoc, arith,
  ◌==◌, length, drop,
}
use operating_sys.Base.{length-snoc}
use operating_sys.Files.{write_byte, write_letters, main_03}

-- every second letter, from the one behind `c` on
abbrev pub every_second : (n c : ℕ) → List ℕ
every_second zero c = []
every_second (suc n) c = (c + 1) ∷ every_second n (c + 2)

-- A write behind a known front.
pub write_byte-append :
    (front rest : List ℕ) (offset b : ℕ)
    → offset ≡ length front
    → write_byte (front ++ rest) offset b ≡ front ++ (b ∷ drop 1 rest)
unfolding write_byte
write_byte-append [] [] zero b e = refl
write_byte-append [] (x ∷ rest) zero b e = refl
write_byte-append [] rest (suc i) b e = absurd (omega (arith, e))
write_byte-append (x ∷ front) rest zero b e = absurd (omega (arith, e))
write_byte-append (x ∷ front) rest (suc i) b e =
    ap (◌∷◌ x) (write_byte-append front rest i b (omega (arith, e)))

drop-one {ℓ} : {A : Type ℓ} (n : ℕ) (xs : List A) → drop n (drop 1 xs) ≡ drop (suc n) xs
drop-one zero [] = refl
drop-one (suc n) [] = refl
drop-one n (x ∷ xs) = refl

-- Two rounds: the second letter takes the place of the first.
write_letters-pairs :
    (n k c offset : ℕ) (front rest : List ℕ)
    → k ≡ n + n
    → c % 2 ≡ 1
    → offset ≡ length front
    → write_letters k c offset offset (front ++ rest) ≡ front ++ (every_second n c ++ drop n rest)
unfolding write_letters
write_letters-pairs zero zero c offset front rest e odd at = refl
write_letters-pairs zero (suc k) c offset front rest e odd at = absurd (omega (arith, e))
write_letters-pairs (suc n) zero c offset front rest e odd at = absurd (omega (arith, e))
write_letters-pairs (suc n) (suc zero) c offset front rest e odd at = absurd (omega (arith, e))
write_letters-pairs (suc n) (suc (suc k)) c offset front rest e odd at =
    let one : (c % 2 == 0) ≡ false = ground arith in
    let two : ((c + 1) % 2 == 0) ≡ true = ground arith in
    let next : c + 1 + 1 ≡ c + 2 = omega arith in
    let later =
      write_letters-pairs n k (c + 2) (offset + 1) (front ++ (c + 1) ∷ []) (drop 1 rest)
        (omega (arith, e)) (omega (arith, odd)) (omega (arith, at, length-snoc front (c + 1))) in
    rw
      (
        one,
        two,
        write_byte-append front rest offset c at,
        write_byte-append front (c ∷ drop 1 rest) offset (c + 1) at,
        next,
      )
      (simp (append_assoc, drop-one) at later)

-- Both descriptors start at the beginning of the file, and each letter of the second overwrites the
-- one of the first: of the alphabet every second letter remains, and behind these thirteen bytes
-- what the file held there before.
pub main_03-every_second : (file : List ℕ) → main_03 file ≡ every_second 13 97 ++ drop 13 file
unfolding main_03
main_03-every_second file = write_letters-pairs 13 26 97 0 [] file (omega arith) (omega arith) refl

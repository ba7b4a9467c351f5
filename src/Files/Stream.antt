-- ===== src/Files/Stream.antt =====
-- What os_02/lab_05/src/01.c prints.
use operating_sys.Base.{
  ℕ, zero, suc, ◌+◌, ◌<◌, ◌≡◌, refl, ap, ◌∙◌, ◌||◌, Option, none, some, List, [], ◌∷◌, ◌++◌, arith,
  if◌then◌else◌, length, take, drop,
}
use operating_sys.Base.Outcome.{Outcome, done, ◌>>=◌}
use operating_sys.Base.{drop-drop}
use operating_sys.Files.{bytes_of, got, buf_n, next_byte, scan_char, one_stream, main_01}

-- What a stream will still give: the bytes in its buffer, and the file behind the offset.
abbrev pub pending : (file waiting : List ℕ) (offset : ℕ) → List ℕ
pending file waiting offset = waiting ++ drop offset file

abbrev pub head_of : List ℕ → Option ℕ
head_of [] = none
head_of (b ∷ bs) = some b

take-drop_append {ℓ} :
    {A : Type ℓ} (n : ℕ) (xs : List A) → take n xs ++ drop (length (take n xs)) xs ≡ xs
take-drop_append zero xs = refl
take-drop_append (suc n) [] = refl
take-drop_append (suc n) (x ∷ xs) = ap (◌∷◌ x) (take-drop_append n xs)

filled :
    (xs : List ℕ) (offset : ℕ)
    → ((next_byte (take buf_n xs) offset).0 ≡ head_of xs)
      × ((next_byte (take buf_n xs) offset).1 ++ drop (length (take buf_n xs)) xs ≡ drop 1 xs)
filled [] offset = (refl, refl)
filled (x ∷ xs) offset = (refl, take-drop_append 19 xs)

next_byte_offset : (xs : List ℕ) (offset : ℕ) → (next_byte xs offset).2 ≡ offset
next_byte_offset [] offset = refl
next_byte_offset (x ∷ xs) offset = refl

-- Whatever waits in the buffer, a call gives the first byte of what is pending, and leaves the
-- rest.
pub scan_char-pending :
    (file waiting : List ℕ) (offset : ℕ)
    → ((scan_char file waiting offset).0 ≡ head_of (pending file waiting offset))
      × (pending file (scan_char file waiting offset).1 (scan_char file waiting offset).2
          ≡ drop 1 (pending file waiting offset))
unfolding scan_char
scan_char-pending file (b ∷ bs) offset = (refl, refl)
scan_char-pending file [] offset =
    let xs = drop offset file in
    let n = length (take buf_n xs) in
    let (first, rest) = filled xs (offset + n) in
    (first, rw (next_byte_offset, ← drop-drop n offset (offset + n) file refl) rest)

one_stream-pending :
    (file : List ℕ) (fuel : ℕ) (waiting : List ℕ) (offset : ℕ) (xs : List ℕ)
    → pending file waiting offset ≡ xs
    → length xs < fuel
    → one_stream file fuel waiting offset ≡ done xs
unfolding one_stream
one_stream-pending file zero waiting offset xs e enough = absurd (omega arith)
one_stream-pending file (suc fuel) waiting offset xs e enough =
    let first = scan_char file waiting offset in
    let second = scan_char file first.1 first.2 in
    let (e1, p1) = scan_char-pending file waiting offset in
    let (e2, p2) = scan_char-pending file first.1 first.2 in
    let left = p1 ∙ ap (drop 1) e in
    let later =
      one_stream-pending file fuel second.1 second.2 (drop 1 (drop 1 xs)) (p2 ∙ ap (drop 1) left) in
    rw (e1 ∙ ap head_of e, e2 ∙ ap head_of left) (prints xs later enough)
  where
    prints :
        {o : Outcome (List ℕ)} (xs : List ℕ)
        → (length (drop 1 (drop 1 xs)) < fuel → o ≡ done (drop 1 (drop 1 xs)))
        → length xs < suc fuel
        → (if got (head_of xs) || got (head_of (drop 1 xs))
            then (do
              out ← o
              done (bytes_of (head_of xs) ++ (bytes_of (head_of (drop 1 xs)) ++ out)))
            else done [])
          ≡ done xs
    prints [] later enough = refl
    prints (a ∷ []) later enough = rw (later (omega arith)) refl
    prints (a ∷ b ∷ xs) later enough = rw (later (omega arith)) refl

-- The second stream is never read: the file is printed once, followed by a newline, whatever the
-- size of the buffers cuts it into. The loop ends; it gets a round for every byte and one more.
pub main_01_prints :
    (file : List ℕ) (fuel : ℕ) → length file < fuel → main_01 file fuel ≡ done (file ++ 10 ∷ [])
unfolding main_01
main_01_prints file fuel enough = rw (one_stream-pending file fuel [] 0 file refl enough) refl

-- ===== src/Pipes/Messages/Steps.antt =====
-- The reading and waiting steps of the parent of os_01/lab_04/src/04.c keep what holds at its
-- place.
use operating_sys.Base.{
  ℕ, zero, suc, ◌+◌, ◌≤◌, ◌<◌, ◌≡◌, refl, sym, ap, ◌∙◌, true, List, [], ◌∷◌, ◌++◌, append_assoc,
  append-nil, arith, update, length, get_or, drop, length-append,
}
use operating_sys.Base.Outcome.{done}
use operating_sys.Base.{length-snoc, drop-drop, drop_get}
use operating_sys.Base.Memory.{store_bytes, store_bytes-append, length-drop_add}
use operating_sys.Pipes.Messages.{Child, finished, reaped, forking, reading, waiting, ended}
use operating_sys.Pipes.Messages.Phases.{is_reaped, Phase, Sent-short, Sent-long, keeps}

done_inj : {x y : List ℕ} → done x ≡ done y → x ≡ y
done_inj e = cc

pub starts-Phase :
    (garbage pipe buffer : List ℕ) (child : ℕ → Child)
    → Phase garbage (forking 2) pipe buffer child
    → Phase garbage (reading 0) pipe buffer child
starts-Phase garbage pipe buffer child (sent, same, none_reaped, born, few) =
    ([], sent, refl, same, none_reaped, born 0, born 1)

pub reads-Phase :
    (garbage pipe buffer buffer' : List ℕ) (child : ℕ → Child) (index b : ℕ)
    → length garbage ≡ 256
    → store_bytes buffer index (b ∷ []) ≡ done buffer'
    → Phase garbage (reading index) (b ∷ pipe) buffer child
    → Phase garbage (reading (index + 1)) pipe buffer' child
reads-Phase garbage pipe buffer buffer' child index b size stored
      (got, sent, at, same, none_reaped, first, second) =
    let short = Sent-short (ended (child 0)) (ended (child 1)) (got ++ b ∷ pipe) sent in
    let fits : 1 ≤ length (drop index garbage) =
      omega (arith, at, size, short, length-append got (b ∷ pipe), length-drop_add index garbage) in
    let written = store_bytes-append got (drop index garbage) (b ∷ []) fits in
    let next : buffer' ≡ got ++ (b ∷ drop (index + 1) garbage) = done_inj (
      sym stored
      ∙ ap (λ x. store_bytes x index (b ∷ [])) same
      ∙ ap (λ k. store_bytes (got ++ drop index garbage) k (b ∷ [])) (sym at)
      ∙ written
      ∙ ap (λ x. done (got ++ (b ∷ x))) (drop-drop 1 index (index + 1) garbage refl)) in
    (
      got ++ b ∷ [],
      rw (append_assoc got (b ∷ []) pipe) sent,
      length-snoc got b ∙ ap (λ k. k + 1) at,
      next ∙ sym (append_assoc got (b ∷ []) (drop (index + 1) garbage)),
      none_reaped,
      first,
      second,
    )

pub pipe_ends-Phase :
    (garbage buffer buffer' : List ℕ) (child : ℕ → Child) (index : ℕ)
    → length garbage ≡ 256
    → ended (child 0) ≡ true
    → ended (child 1) ≡ true
    → store_bytes buffer (index + 1) (0 ∷ []) ≡ done buffer'
    → Phase garbage (reading index) [] buffer child
    → Phase garbage (waiting 0) [] buffer' child
pipe_ends-Phase garbage buffer buffer' child index size e0 e1 stored
      (got, sent, at, same, none_reaped, first, second) =
    let text = rw (e0, e1, append-nil got) at sent in
    let long = Sent-long got text in
    let stray = get_or garbage 21 0 in
    let front = got ++ stray ∷ [] in
    let here : index ≡ 21 = omega (arith, at, long) in
    let split : buffer ≡ front ++ drop 22 garbage =
      same
      ∙ ap (λ k. got ++ drop k garbage) here
      ∙ ap (◌++◌ got) (drop_get 21 garbage (omega (arith, size)))
      ∙ sym (append_assoc got (stray ∷ []) (drop 22 garbage)) in
    let place : index + 1 ≡ length front = omega (arith, length-snoc got stray, here, long) in
    let written =
      store_bytes-append front (drop 22 garbage) (0 ∷ [])
        (omega (arith, size, length-drop_add 22 garbage (omega (arith, size)))) in
    (
      (
        got,
        text,
        done_inj (
              sym stored
              ∙ ap (λ x. store_bytes x (index + 1) (0 ∷ [])) split
              ∙ ap (λ k. store_bytes (front ++ drop 22 garbage) k (0 ∷ [])) place
              ∙ written
              ∙ ap (λ x. done (front ++ (0 ∷ x))) (drop-drop 1 22 23 garbage (omega arith)))
            ∙ append_assoc got (stray ∷ []) (0 ∷ drop 23 garbage),
      ),
      e0,
      e1,
      none_reaped,
    )

pub waits-Phase :
    (garbage pipe buffer : List ℕ) (child : ℕ → Child) (i j : ℕ)
    → j < 2
    → child j ≡ finished
    → Phase garbage (waiting i) pipe buffer child
    → Phase garbage (waiting (i + 1)) pipe buffer (update child j reaped)
waits-Phase garbage pipe buffer child i j h e (received, first, second, count) =
    let at = λ (k : ℕ). keeps ended child j k reaped (ap ended e) in
    (received, at 0 ∙ first, at 1 ∙ second, one_more j child h e count)
  where
    one_more :
        (j : ℕ) (child : ℕ → Child)
        → j < 2
        → child j ≡ finished
        → is_reaped (child 0) + is_reaped (child 1) ≡ i
        → is_reaped (update child j reaped 0) + is_reaped (update child j reaped 1) ≡ i + 1
    one_more zero child h e count = omega (arith, count, ap is_reaped e)
    one_more (suc zero) child h e count = omega (arith, count, ap is_reaped e)
    one_more (suc (suc j)) child h e count = absurd (omega arith)

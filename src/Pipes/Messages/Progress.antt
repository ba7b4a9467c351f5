-- ===== src/Pipes/Messages/Progress.antt =====
-- The processes of os_01/lab_04/src/04.c do not get stuck.
use operating_sys.Base.{
  ℕ, ◌+◌, ◌≤◌, ◌<◌, ◌≡◌, refl, ap, ◌∙◌, ◌⊎◌, inl, inr, true, List, [], ◌∷◌, ◌++◌, arith, dec_lt,
  length, drop, length-append,
}
use operating_sys.Base.Outcome.{done}
use operating_sys.Base.Memory.{store_bytes, store_bytes_fits, length-drop_add}
use operating_sys.Pipes.Messages.{
  Child, unborn, running, finished, reaped, Parent, forking, reading, waiting, returned, System,
  ended, Step, forks, sends, starts_reading, reads, pipe_ends, waits, returns, Reach,
}
use operating_sys.Pipes.Messages.Phases.{is_reaped, not_unborn, Phase, Sent-short}
use operating_sys.Pipes.Messages.Received.{at, Reach-Inv}

fits_in :
    (buffer : List ℕ) (i b : ℕ)
    → i < length buffer
    → (after : List ℕ) × (store_bytes buffer i (b ∷ []) ≡ done after)
fits_in buffer i b h = (_, store_bytes_fits buffer i (b ∷ []) (omega arith) (omega arith))

ended_cases : (c : Child) → not_unborn c ≡ true → (c ≡ running) ⊎ (ended c ≡ true)
ended_cases unborn e = cc
ended_cases running e = inl refl
ended_cases finished e = inr refl
ended_cases reaped e = inr refl

finished_cases : (c : Child) → ended c ≡ true → (c ≡ finished) ⊎ (is_reaped c ≡ 1)
finished_cases unborn e = cc
finished_cases running e = cc
finished_cases finished e = inl refl
finished_cases reaped e = inr refl

is_reaped_le : (c : Child) → is_reaped c ≤ 1
is_reaped_le unborn = omega arith
is_reaped_le running = omega arith
is_reaped_le finished = omega arith
is_reaped_le reaped = omega arith

-- A state that a step follows, or the end of the parent.
abbrev pub Goes : System → Type 0
Goes s = ((code : ℕ) × (s.parent ≡ returned code)) ⊎ ((t : System) × Step s t)

reading-Goes :
    (garbage : List ℕ) (s : System) (index : ℕ)
    → length garbage ≡ 256
    → s.parent ≡ reading index
    → Phase garbage (reading index) s.pipe s.buffer s.child
    → Goes s
reading-Goes garbage s index size e (got, sent, at, same, none_reaped, first, second) =
    let short = Sent-short (ended (s.child 0)) (ended (s.child 1)) (got ++ s.pipe) sent in
    let few : index ≤ 21 = omega (arith, short, at, length-append got s.pipe) in
    let room : length s.buffer ≡ 256 = omega (
      arith,
      ap length same,
      length-append got (drop index garbage),
      at,
      size,
      length-drop_add index garbage (omega (arith, size, few)),
    ) in
    reads_on s.pipe refl room few
  where
    reads_on : (pipe : List ℕ) → s.pipe ≡ pipe → length s.buffer ≡ 256 → index ≤ 21 → Goes s
    reads_on (b ∷ pipe) has room few =
        let (after, stored) = fits_in s.buffer index b (omega (arith, room, few)) in
        inr (_, reads e has stored)
    reads_on [] has room few = elim (ended_cases (s.child 0) first) [
      | inl going ↦ inr (_, sends 0 (omega arith) going)
      | inr e0 ↦ elim (ended_cases (s.child 1) second) [
        | inl going ↦ inr (_, sends 1 (omega arith) going)
        | inr e1 ↦
            let (after, stored) = fits_in s.buffer (index + 1) 0 (omega (arith, room, few)) in
            inr (_, pipe_ends e has e0 e1 stored)
      ]
    ]

waiting-Goes :
    (garbage : List ℕ) (s : System) (i : ℕ)
    → s.parent ≡ waiting i
    → Phase garbage (waiting i) s.pipe s.buffer s.child
    → Goes s
waiting-Goes garbage s i e (received, e0, e1, count) = elim (finished_cases (s.child 0) e0) [
  | inl fin ↦ inr (
    _,
    waits 0 7 0 e (omega (arith, count, ap is_reaped fin, is_reaped_le (s.child 1))) (omega arith)
        fin,
  )
  | inr gone ↦ elim (finished_cases (s.child 1) e1) [
    | inl fin ↦
        inr (_, waits 1 8 0 e (omega (arith, count, gone, ap is_reaped fin)) (omega arith) fin)
    | inr gone' ↦ inr (_, returns (e ∙ ap waiting (omega (arith, count, gone, gone'))))
  ]
]

-- No state that can be reached is stuck: a step is possible until the parent has returned; so no
-- message leads out of the array, and every `wait` finds a child.
pub never_stuck : {garbage : List ℕ} {s : System} → length garbage ≡ 256 → Reach garbage s → Goes s
never_stuck {garbage} {s} size r = go s.parent refl
  where
    go : (p : Parent) → s.parent ≡ p → Goes s
    go (forking i) e =
        let (sent, same, none_reaped, born, few) = at garbage s e (Reach-Inv size r) in
        elim (dec_lt i 2) [
          | yes h ↦ inr (_, forks e h)
          | no h ↦ inr (_, starts_reading (e ∙ ap forking (omega arith)))
        ]
    go (reading index) e = reading-Goes garbage s index size e (at garbage s e (Reach-Inv size r))
    go (waiting i) e = waiting-Goes garbage s i e (at garbage s e (Reach-Inv size r))
    go (returned code) e = inl (code, e)

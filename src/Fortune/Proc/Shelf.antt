-- ===== src/Fortune/Proc/Shelf.antt =====
-- The shelf behind fort_proc.c: a list of cookies that are read in turn, round and round. The bytes
-- of the pot and the two indices are the representation.
use operating_sys.Base.{
  length-snoc, ℕ, ◌+◌, ◌≤◌, ◌≡◌, refl, sym, ap, ◌∙◌, false, Option, none, some, List, [], ◌∷◌, ◌++◌,
  append_assoc, arith, ltb, length, drop, replicate, All, length-append, length-replicate,
}
use operating_sys.Base.Outcome.{done, pos}
use operating_sys.Base.Memory.{length-drop_add, store_bytes, IsText, store_bytes-append}
use operating_sys.Fortune.{abl_spc, max_cookie_len, Pot, fresh_pot, terminate, terminate-append}
use operating_sys.Fortune.Proc.{write__proc}

-- the cookies that were read in this round, and those that were not
abbrev pub Shelf : Type 0
Shelf = List (List ℕ) × List (List ℕ)

abbrev pub all_of : Shelf → List (List ℕ)
all_of (rs, us) = rs ++ us

-- The next cookie: the first of the unread ones, or the first of all when none is left.
abbrev pub take_next : Shelf → Option (List ℕ × Shelf)
take_next (rs, c ∷ us) = some (c, (rs ++ c ∷ [], us))
take_next (c ∷ rs, []) = some (c, (c ∷ [], rs))
take_next ([], []) = none

abbrev pub encode : List (List ℕ) → List ℕ
encode [] = []
encode (c ∷ cs) = c ++ 0 ∷ encode cs

pub encode-append : (xs ys : List (List ℕ)) → encode (xs ++ ys) ≡ encode xs ++ encode ys
encode-append [] ys = refl
encode-append (x ∷ xs) ys = simp (encode-append xs ys, append_assoc)

-- The pot holds the cookies, each with its NUL, in order; the indices point behind those that
-- were read and behind all.
pub record Holds (p : Pot) (s : Shelf) : Type 0 where
  pub free : List ℕ
  pub layout : p.pot ≡ encode (all_of s) ++ free
  pub size : length p.pot ≡ max_cookie_len
  pub write_end : p.next_fortune ≡ length (encode (all_of s))
  pub read_end : p.cookie_index ≡ length (encode s.0)
  pub texts : All IsText (all_of s)

pub fresh_pot-Holds : Holds fresh_pot ([], [])
fresh_pot-Holds = record {
  free = replicate max_cookie_len 0;
  layout = refl;
  size = length-replicate {A = ℕ} max_cookie_len 0;
  write_end = refl;
  read_end = refl;
  texts = tt;
}

All-snoc {ℓ} :
    {A : Type ℓ} (Ok : A → Type 0) (front : List A) {last : A}
    → All Ok front
    → Ok last
    → All Ok (front ++ last ∷ [])
All-snoc Ok [] all ok = (ok, tt)
All-snoc Ok (x ∷ front) (okx, all) ok = (okx, All-snoc Ok front all ok)

-- what is left of the free bytes
abbrev behind : List ℕ → List ℕ → ℕ → List ℕ
behind free c b = drop (length (c ++ b ∷ [])) free

-- The two writes of the handler at the end of a known front.
stored :
    (front free c : List ℕ) (b : ℕ)
    → length c + 1 ≤ length free
    → store_bytes (front ++ free) (length front) (c ++ b ∷ [])
      ≡ done ((front ++ c) ++ b ∷ behind free c b)
stored front free c b fits =
    store_bytes-append front free (c ++ b ∷ []) (omega (arith, length-snoc c b))
    ∙ ap done (simp append_assoc)

terminated :
    (front free c : List ℕ) (b : ℕ)
    → terminate ((front ++ c) ++ b ∷ behind free c b) (length front + length (c ++ b ∷ []))
      ≡ done ((front ++ c) ++ 0 ∷ behind free c b)
terminated front free c b =
    terminate-append (front ++ c) (behind free c b) b _
      (omega (arith, length-append front c, length-snoc c b))

length-encode-prefix : (rs us : List (List ℕ)) → length (encode rs) ≤ length (encode (rs ++ us))
length-encode-prefix rs us =
    omega (arith, ap length (encode-append rs us), length-append (encode rs) (encode us))

encode-snoc :
    (rs us : List (List ℕ)) (c free : List ℕ)
    → encode (rs ++ (us ++ c ∷ [])) ++ free ≡ (encode (rs ++ us) ++ c) ++ 0 ∷ free
encode-snoc rs us c free = simp (encode-append, append_assoc)

pub length-encode-snoc :
    (rs us : List (List ℕ)) (c : List ℕ)
    → length (encode (rs ++ (us ++ c ∷ []))) ≡ length (encode (rs ++ us)) + length c + 1
length-encode-snoc rs us c = omega (
  arith,
  ap length (encode-snoc rs us c []),
  length-append (encode (rs ++ (us ++ c ∷ []))) [],
  length-append (encode (rs ++ us) ++ c) (0 ∷ []),
  length-append (encode (rs ++ us)) c,
)

-- The path through the handler on which nothing fails.
write__proc_done :
    (p : Pot) (buf pot pot' : List ℕ)
    → ltb (abl_spc p.cookie_index) (length buf) ≡ false
    → store_bytes p.pot p.next_fortune buf ≡ done pot
    → terminate pot (p.next_fortune + length buf) ≡ done pot'
    → write__proc p buf 0
      ≡ done (pos (length buf), record p { pot = pot'; next_fortune = p.next_fortune + length buf })
unfolding write__proc
write__proc_done p buf pot pot' room s t = rw (room, s, t)

-- A cookie with the byte behind it, written where it fits, is put behind the others, and its
-- last byte gives way to the NUL.
pub write__proc-Holds :
    {p : Pot} (s : Shelf) (c : List ℕ) (b : ℕ)
    → Holds p s
    → IsText c
    → length (encode (all_of s)) + length c + 1 ≤ max_cookie_len
    → (p' : Pot) × (write__proc p (c ++ b ∷ []) 0 ≡ done (pos (length c + 1), p'))
      × Holds p' (s.0, s.1 ++ c ∷ [])
unfolding write__proc
write__proc-Holds {p} (rs, us) c b h t fits = (
  record p { pot = full; next_fortune = p.next_fortune + length (c ++ b ∷ []) },
  write__proc_done p (c ++ b ∷ []) ((front ++ c) ++ b ∷ behind h.free c b) full
        (ground (arith, h.read_end, length-snoc c b, length-encode-prefix rs us))
        (rw (h.layout, h.write_end) (stored front h.free c b room))
        (rw h.write_end (terminated front h.free c b))
      ∙ ap
          (λ n.
            done (
              pos n,
              record p { pot = full; next_fortune = p.next_fortune + length (c ++ b ∷ []) },
            ))
          (length-snoc c b),
  record {
    free = behind h.free c b;
    layout = sym (encode-snoc rs us c _);
    size = omega (
      arith,
      room,
      h.size,
      ap length h.layout,
      length-append front h.free,
      length-append (front ++ c) (0 ∷ behind h.free c b),
      length-append front c,
      length-snoc c b,
      length-drop_add (length (c ++ b ∷ [])) h.free,
    );
    write_end = omega (arith, h.write_end, length-encode-snoc rs us c, length-snoc c b);
    read_end = h.read_end;
    texts = rw (← append_assoc) (All-snoc IsText (rs ++ us) h.texts t);
  },
)
  where
    front : List ℕ
    front = encode (rs ++ us)

    full : List ℕ
    full = (front ++ c) ++ 0 ∷ behind h.free c b

    room : length c + 1 ≤ length h.free
    room = omega (arith, h.size, ap length h.layout, length-append (encode (rs ++ us)) h.free)

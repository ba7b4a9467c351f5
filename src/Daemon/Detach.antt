-- ===== src/Daemon/Detach.antt =====
-- `daemonize` of os_02/lab_01/daemonise.c.
use operating_sys.Base.{
  ℕ, zero, suc, ◌+◌, ◌-◌, ◌≤◌, ◌≡◌, refl, ap, ◌∙◌, Bool, true, false, not, ◌&&◌, ◌||◌, Option, none,
  some, List, [], ◌∷◌, arith, ltb, leb, if◌then◌else◌, get_or, drop,
}
use operating_sys.Base.Outcome.{Outcome, done, exited, ◌>>=◌, ℤ, pos, minus}

-- The table of descriptors: whether descriptor `i` is open, for each `i` below the length; none is
-- open from the length on.
abbrev pub Fds : Type 0
Fds = List Bool

abbrev pub is_open : Fds → ℕ → Bool
is_open fds i = get_or fds i false

-- `open` and `dup` take the lowest descriptor that is free.
unfoldable pub take_lowest : Fds → ℕ × Fds
take_lowest [] = (0, true ∷ [])
take_lowest (false ∷ fds) = (0, true ∷ fds)
take_lowest (true ∷ fds) = let (i, r) = take_lowest fds in (i + 1, true ∷ r)

-- `dup(0)`: it fails if 0 is not open.
unfoldable pub dup0 : Fds → ℤ × Fds
unfolding take_lowest
dup0 fds = if is_open fds 0 then (let (i, r) = take_lowest fds in (pos i, r)) else (minus 1, fds)

-- `for (i = 0; i < n; i++) close(i)`
unfoldable pub close_below : ℕ → Fds → Fds
close_below zero fds = fds
close_below (suc n) [] = []
close_below (suc n) (b ∷ fds) = false ∷ close_below n fds

-- RLIM_INFINITY, or a number
pub data Limit : Type 0 where
  infinity : Limit
  at_most : ℕ → Limit

pub data Fork : Type 0 where
  fork_failed : Fork
  in_parent : Fork
  in_child : Fork

-- what the system answers
pub record Answers : Type 0 where
  pub limit : Option Limit
  pub forked : Fork
  pub hup_ignored : Bool
  pub root_entered : Bool
  pub null_opened : Bool

pub record Process : Type 0 where
  pub fds : Fds
  pub umask : ℕ
  pub session_leader : Bool
  pub ignores_hup : Bool
  pub in_root : Bool

abbrev pub limit_number : Limit → ℕ
limit_number infinity = 1024
limit_number (at_most n) = n

-- the test on the three descriptors; all else logs them and exits
unfoldable pub checked : ℤ → ℤ → ℤ → Fds → Outcome Fds
checked (pos zero) (pos (suc zero)) (pos (suc (suc zero))) fds = done fds
checked a b c fds = exited 1

-- `open("/dev/null", O_RDWR)`
unfoldable pub open_null : Bool → Fds → ℤ × Fds
unfolding take_lowest
open_null null_opened fds =
    if null_opened then (let (i, r) = take_lowest fds in (pos i, r)) else (minus 1, fds)

-- descriptors 0, 1 and 2
unfoldable pub attach_null : Bool → Fds → Outcome Fds
unfolding open_null dup0 checked
attach_null null_opened fds =
    let (fd0, fds0) = open_null null_opened fds in
    let (fd1, fds1) = dup0 fds0 in let (fd2, fds2) = dup0 fds1 in checked fd0 fd1 fd2 fds2

-- what the child does once it leads a session
unfoldable pub detach : Answers → Limit → Process → Outcome Process
unfolding close_below attach_null
detach a l p = if not a.hup_ignored then exited 1 else if not a.root_entered then exited 1 else do
  fds ← attach_null a.null_opened (close_below (limit_number l) p.fds)
  done (record {
    fds = fds;
    umask = p.umask;
    session_leader = true;
    ignores_hup = true;
    in_root = true;
  })

-- The parent leaves with status 0, every failure with status 1.
unfoldable pub daemonize : Answers → Process → Outcome Process
unfolding detach
daemonize a p = elim a.limit [
  | none ↦ exited 1
  | some l ↦ elim a.forked [
    | fork_failed ↦ exited 1
    | in_parent ↦ exited 0
    | in_child ↦ detach a l (record p { umask = 0 })
  ]
]

is_open-close_below :
    (n : ℕ) (fds : Fds) (i : ℕ) → is_open (close_below n fds) i ≡ (leb n i && is_open fds i)
unfolding close_below
is_open-close_below zero fds i = ground arith
is_open-close_below (suc n) [] i = ground arith
is_open-close_below (suc n) (b ∷ fds) zero = ground arith
is_open-close_below (suc n) (b ∷ fds) (suc i) = ground (arith, is_open-close_below n fds i)

attach_null_closed :
    (n : ℕ) (fds : Fds)
    → attach_null true (close_below (suc (suc (suc n))) fds)
      ≡ done (true ∷ true ∷ true ∷ drop 3 (close_below (suc (suc (suc n))) fds))
unfolding attach_null close_below
attach_null_closed n [] = refl
attach_null_closed n (a ∷ []) = refl
attach_null_closed n (a ∷ b ∷ []) = refl
attach_null_closed n (a ∷ b ∷ c ∷ fds) = refl

is_open-standard :
    (fds : Fds) (i : ℕ) → is_open (true ∷ true ∷ true ∷ drop 3 fds) i ≡ (ltb i 3 || is_open fds i)
is_open-standard fds zero = refl
is_open-standard fds (suc zero) = refl
is_open-standard fds (suc (suc zero)) = refl
is_open-standard [] (suc (suc (suc i))) = ground arith
is_open-standard (a ∷ []) (suc (suc (suc i))) = ground arith
is_open-standard (a ∷ b ∷ []) (suc (suc (suc i))) = ground arith
is_open-standard (a ∷ b ∷ c ∷ fds) (suc (suc (suc i))) = ground arith

-- When the system grants every request and the limit on descriptors (1024 in place of an infinite
-- one) is at least 3, the child gets through: it leads a session, ignores SIGHUP, stands in the
-- root directory with an empty creation mask, and has open exactly the descriptors 0, 1 and 2 and
-- those at or above the limit that were open before.
pub daemonize_child :
    (l : Limit) (p : Process)
    → 3 ≤ limit_number l
    → (fds : Fds) × (daemonize
          (record {
            limit = some l;
            forked = in_child;
            hup_ignored = true;
            root_entered = true;
            null_opened = true;
          })
          p
        ≡ done (record {
          fds = fds;
          umask = 0;
          session_leader = true;
          ignores_hup = true;
          in_root = true;
        }))
      × ((i : ℕ) → is_open fds i ≡ (ltb i 3 || (leb (limit_number l) i && is_open p.fds i)))
unfolding daemonize
daemonize_child l p three =
    let n = limit_number l - 3 in
    let e : limit_number l ≡ suc (suc (suc n)) = omega arith in
    (
      true ∷ true ∷ true ∷ drop 3 (close_below (limit_number l) p.fds),
      rw e (rw (attach_null_closed n p.fds)),
      λ i.
          is_open-standard (close_below (limit_number l) p.fds) i
          ∙ ap (λ b. ltb i 3 || b) (is_open-close_below (limit_number l) p.fds i),
    )

-- ===== src/ProcInfo/Links.antt =====
-- What `link_info`, `fd_info` and the buffers of os_02/lab_04/src/part_01/main.c show of links.
use operating_sys.Base.{
  ℕ, zero, suc, ◌+◌, ◌-◌, ◌<◌, ◌≡◌, refl, sym, ap, ◌∙◌, inl, inr, true, Option, none, some, List,
  [], ◌∷◌, ◌++◌, append_assoc, arith, dec_lt, ltb, leb, if◌then◌else◌, lt→ltb, Bool-cases, length,
  take, drop, All, length-append, length-take, length-replicate, take-of_le,
}
use operating_sys.Base.Outcome.{Outcome, done, fault, ◌>>=◌}
use operating_sys.Base.Memory.{
  overwrite, string_of, IsText, overwrite_lem, string_of-text, store_bytes-append,
  store_bytes_fault, length-overwrite,
}
use operating_sys.Base.Texts.{codes}
use operating_sys.ProcInfo.{Proc, heading, two_lines, link_text, link_info}
use operating_sys.ProcInfo.Arguments.{short_path}
use operating_sys.ProcInfo.Buffers.{zeros, overwrite-zeros, IsText-append, drop-IsText, drop-padded}
use operating_sys.ProcInfo.Report.{is_dots, read_link, arrow, print_links, open_dir, fd_info}

-- The texts of a link, if there is one, have no NUL.
abbrev pub LinkIsText : Option (List ℕ) → Type 0
LinkIsText none = Unit
LinkIsText (some target) = IsText target

-- what should stand below the heading
abbrev pub link_shown : (bufsiz : ℕ) (head : List ℕ) → Option (List ℕ) → Outcome (List ℕ)
link_shown bufsiz head none = done (head ++ (10 ∷ 10 ∷ []))
link_shown bufsiz head (some target) =
    if ltb (length target) bufsiz then done (head ++ (10 ∷ target ++ 10 ∷ [])) else fault

link_text-shown :
    (n : ℕ) (head : List ℕ) (link : Option (List ℕ))
    → LinkIsText link
    → 0 < n
    → (link_text n link (zeros n) >>= λ buf.
        string_of buf >>= λ text. done (head ++ (10 ∷ text ++ 10 ∷ [])))
      ≡ link_shown n head link
link_text-shown zero head none t some_room = absurd (omega arith)
link_text-shown (suc n) head none t some_room = refl
link_text-shown n head (some target) t some_room = elim (dec_lt (length target) n) [
  | yes fits ↦
      let k = n - length target - 1 in
      let copied = overwrite-zeros target k n (omega arith) in
      rw
        (
          take-of_le n target (omega arith),
          copied,
          store_bytes-append target (zeros (suc k)) (0 ∷ []) (omega arith),
          string_of-text target (zeros k) t,
          lt→ltb (length target) n fits,
        )
        refl
  | no long ↦
      let written = take n target in
      let all_of = length-take n target in
      let size = length-overwrite (zeros n) written ∙ length-replicate {A = ℕ} n 0 in
      let outside =
        store_bytes_fault (overwrite (zeros n) written) (length written) (0 ∷ []) (omega arith)
          (omega (arith, size, all_of)) in
      rw outside (ground arith)
]

-- `cwd_info`, `exe_info` and `root_info` on a path that fits: a link whose text is shorter than the
-- buffer is printed below the heading, a link that cannot be read gives an empty line, and a link
-- that fills the buffer makes the function write behind it.
pub link_info-shown :
    (n : ℕ) (sys : Proc) (name proc_path : List ℕ)
    → length (proc_path ++ name) < 256
    → LinkIsText (sys.link (proc_path ++ name))
    → 0 < n
    → link_info n sys name proc_path
      ≡ link_shown n (heading two_lines (proc_path ++ name)) (sys.link (proc_path ++ name))
unfolding link_info
link_info-shown n sys name proc_path short t some_room =
    let path = proc_path ++ name in
    rw (short_path 256 path short short)
      (link_text-shown n (heading two_lines path) (sys.link path) t some_room)

-- The text that `fd_info` shows for a link: what the link says, and behind it what the text
-- shown before was longer.
abbrev pub shown_after : Option (List ℕ) → List ℕ → List ℕ
shown_after none before = before
shown_after (some target) before = target ++ drop (length target) before

unfoldable pub links_shown :
    Proc → (file_path : List ℕ) → List (List ℕ) → (before : List ℕ) → List ℕ
links_shown sys file_path [] before = []
links_shown sys file_path (name ∷ names) before =
    let text = shown_after (sys.link (file_path ++ (47 ∷ name))) before in
    let later = links_shown sys file_path names (if is_dots name then before else text) in
    if is_dots name then later else name ++ (arrow ++ (text ++ (10 ∷ later)))

-- A buffer of `n` bytes with a text at its start.
record Holds (n : ℕ) (text buf : List ℕ) : Type 0 where
  room : ℕ
  same : buf ≡ text ++ zeros (suc room)
  size : length text + suc room ≡ n
  is_text : IsText text

-- Links whose texts, and paths, fit.
abbrev pub LinkFits : (n : ℕ) → Option (List ℕ) → Type 0
LinkFits n none = Unit
LinkFits n (some target) = IsText target × (length target < n)

abbrev pub EveryFits : (n : ℕ) → Proc → (file_path : List ℕ) → List (List ℕ) → Type 0
EveryFits n sys file_path names =
    All
      (λ name.
        LinkFits n (sys.link (file_path ++ (47 ∷ name)))
        × (length (file_path ++ (47 ∷ name)) < 512))
      names

read_link-Holds :
    (n : ℕ) (text buf : List ℕ) (link : Option (List ℕ))
    → Holds n text buf
    → LinkFits n link
    → Holds n (shown_after link text) (read_link n link buf)
read_link-Holds n text buf none h fits = h
read_link-Holds n text buf (some target) h fits =
    let (j, left, size) = drop-padded (length target) text h.room (omega (arith, h.size, fits.1)) in
    let whole : length (text ++ zeros (suc h.room)) ≡ length text + suc h.room =
      length-append text (zeros (suc h.room))
      ∙ ap (λ k. length text + k) (length-replicate {A = ℕ} (suc h.room) 0) in
    record {
      room = j;
      same =
          rw (take-of_le n target (omega (arith, fits.1)), h.same)
            (overwrite_lem (text ++ zeros (suc h.room)) target
                (omega (arith, h.size, fits.1, whole))
              ∙ ap (◌++◌ target) left
              ∙ sym (append_assoc target (drop (length target) text) (zeros (suc j))));
      size = omega (
        arith,
        size,
        h.size,
        length-append target (drop (length target) text),
        length-append (drop (length target) text) (zeros (suc j)),
        length-replicate {A = ℕ} (suc j) 0,
      );
      is_text =
          IsText-append target (drop (length target) text) fits.0
            (drop-IsText (length target) text h.is_text);
    }

Holds-string_of : (n : ℕ) (text buf : List ℕ) → Holds n text buf → string_of buf ≡ done text
Holds-string_of n text buf h = rw h.same (string_of-text text (zeros h.room) h.is_text)

print_links-links_shown :
    (n : ℕ) (sys : Proc) (file_path : List ℕ) (names : List (List ℕ)) (text buf : List ℕ)
    → Holds n text buf
    → EveryFits n sys file_path names
    → print_links n sys file_path names buf ≡ done (links_shown sys file_path names text)
unfolding print_links links_shown
print_links-links_shown n sys file_path [] text buf h fits = refl
print_links-links_shown n sys file_path (name ∷ names) text buf h fits =
    let link = sys.link (file_path ++ (47 ∷ name)) in
    let read = read_link-Holds n text buf link h fits.0.0 in
    elim (Bool-cases (is_dots name)) [
      | inl dots ↦ rw dots (print_links-links_shown n sys file_path names text buf h fits.1)
      | inr shown ↦
          let later =
            print_links-links_shown n sys file_path names (shown_after link text)
              (read_link n link buf) read fits.1 in
          let room : leb (length (file_path ++ (47 ∷ name)) + 1) 512 ≡ true =
            ground (arith, fits.0.1) in
          rw
            (
              shown,
              room,
              Holds-string_of n (shown_after link text) (read_link n link buf) read,
              later,
            )
            refl
    ]

open_dir-some :
    (sys : Proc) (path : List ℕ) (names : List (List ℕ))
    → sys.names path ≡ some names
    → open_dir sys path ≡ done names
open_dir-some sys path names e = rw (open_dir, e) refl

-- `fd_info` on a directory that can be read, with links that fit into the buffer and paths that fit
-- into their arrays: it prints each name but `.` and `..`, and the text of its link; the tail of a
-- longer text that was shown before stands behind a shorter one, and a link that cannot be read is
-- shown as what was shown before it.
pub fd_info-links_shown :
    (n : ℕ) (sys : Proc) (proc_path : List ℕ) (names : List (List ℕ))
    → length (proc_path ++ codes "/fd") < 256
    → length (proc_path ++ codes "/fd") < n
    → sys.names (proc_path ++ codes "/fd") ≡ some names
    → EveryFits n sys (proc_path ++ codes "/fd") names
    → fd_info n sys proc_path
      ≡ done (
          heading two_lines (proc_path ++ codes "/fd")
          ++ links_shown sys (proc_path ++ codes "/fd") names [])
unfolding fd_info
fd_info-links_shown n sys proc_path names short below listed fits =
    let path = proc_path ++ codes "/fd" in
    let whole : n ≡ suc (n - 1) = omega arith in
    let fresh : Holds n [] (zeros n) = record {
      room = n - 1;
      same = ap zeros whole;
      size = omega arith;
      is_text = tt;
    } in
    rw
      (
        short_path n path short below,
        open_dir-some sys path names listed,
        print_links-links_shown n sys path names [] (zeros n) fresh fits,
      )
      refl

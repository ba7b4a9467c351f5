-- ===== src/Walk/Tree.antt =====
-- What a walk over a directory is to count: the tree below it, and when the answers of the system
-- describe it.
use operating_sys.Base.{
  ℕ, ◌+◌, ◌≤◌, ◌≡◌, Bool, true, false, none, some, List, [], ◌∷◌, ◌==◌, if◌then◌else◌, length,
}
use operating_sys.Walk.{
  Counters, Kind, regular, dir, block, character, fifo, slink, sock, Files, Stat, join_path, is_dir,
  is_dots,
}

mutual
  -- An entry that `lstat` does not answer, a file, or a directory.
  pub data Entry : Type 0 where
    lost : Entry
    file : (kind : Kind) (ino : ℕ) → Entry
    folder : (ino : ℕ) → Content → Entry

  -- A directory that cannot be opened, or its entries.
  pub data Content : Type 0 where
    shut : Content
    entries : Entries → Content

  pub data Entries : Type 0 where
    nothing : Entries
    dots : (name : List ℕ) → Entries → Entries
    named : (name : List ℕ) → Entry → Entries → Entries

unfoldable pub names : Entries → List (List ℕ)
names nothing = []
names (dots name es) = name ∷ names es
names (named name e es) = name ∷ names es

abbrev stat : Kind → ℕ → Stat
stat k i = record { kind = k; st_ino = i }

unfoldable mutual
  -- The system answers at a path what the entry says.
  pub Describes : Files → List ℕ → Entry → Type 0
  Describes f path lost = f.lstat path ≡ none
  Describes f path (file k i) = (f.lstat path ≡ some (stat k i)) × (is_dir k ≡ false)
  Describes f path (folder i c) = (f.lstat path ≡ some (stat dir i)) × DescribesContent f path c

  pub DescribesContent : Files → List ℕ → Content → Type 0
  DescribesContent f path shut = f.opendir path ≡ none
  DescribesContent f path (entries es) = (f.opendir path ≡ some (names es)) × DescribesAll f path es

  pub DescribesAll : Files → List ℕ → Entries → Type 0
  DescribesAll f path nothing = Unit
  DescribesAll f path (dots name es) = (is_dots name ≡ true) × DescribesAll f path es
  DescribesAll f path (named name e es) =
      (is_dots name ≡ false) × Describes f (join_path path name) e × DescribesAll f path es

-- The message about a path fits the buffer.
abbrev pub HasRoom : Files → List ℕ → Type 0
HasRoom f path = length path + length (f.error_text path) ≤ 4076

unfoldable mutual
  -- There is room for every message about an entry that the system does not answer.
  pub CanReport : Files → List ℕ → Entry → Type 0
  CanReport f path lost = HasRoom f path
  CanReport f path (file k i) = Unit
  CanReport f path (folder i c) = CanReportContent f path c

  pub CanReportContent : Files → List ℕ → Content → Type 0
  CanReportContent f path shut = Unit
  CanReportContent f path (entries es) = CanReportAll f path es

  pub CanReportAll : Files → List ℕ → Entries → Type 0
  CanReportAll f path nothing = Unit
  CanReportAll f path (dots name es) = CanReportAll f path es
  CanReportAll f path (named name e es) =
      CanReport f (join_path path name) e × CanReportAll f path es

abbrev pub index : Kind → ℕ
index k = elim k [
  | regular ↦ 0
  | dir ↦ 1
  | block ↦ 2
  | character ↦ 3
  | fifo ↦ 4
  | slink ↦ 5
  | sock ↦ 6
]

abbrev pub one_if : Bool → ℕ
one_if b = if b then 1 else 0

unfoldable mutual
  -- How many entries of a kind there are.
  pub tally : Kind → Entry → ℕ
  tally k lost = 0
  tally k (file j i) = one_if (index k == index j)
  tally k (folder i c) = one_if (index k == 1) + tally_content k c

  pub tally_content : Kind → Content → ℕ
  tally_content k shut = 0
  tally_content k (entries es) = tally_all k es

  pub tally_all : Kind → Entries → ℕ
  tally_all k nothing = 0
  tally_all k (dots name es) = tally_all k es
  tally_all k (named name e es) = tally k e + tally_all k es

unfoldable mutual
  -- How many files and directories there are.
  pub size : Entry → ℕ
  size lost = 0
  size (file j i) = 1
  size (folder i c) = 1 + size_content c

  pub size_content : Content → ℕ
  size_content shut = 0
  size_content (entries es) = size_all es

  pub size_all : Entries → ℕ
  size_all nothing = 0
  size_all (dots name es) = size_all es
  size_all (named name e es) = size e + size_all es

-- The counter of a kind.
unfoldable pub field : Kind → Counters → ℕ
field regular c = c.nreg
field dir c = c.ndir
field block c = c.nblk
field character c = c.nchr
field fifo c = c.nfifo
field slink c = c.nslink
field sock c = c.nsock

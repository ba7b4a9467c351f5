-- ===== src/Myfs/Lifetime.antt =====
-- The private objects of the inodes in os_02/lab_07/src/myfs.c, from the load to the unload.
use operating_sys.Base.{
  ℕ, ◌+◌, ◌≤◌, ◌<◌, ◌≡◌, true, false, Option, some, List, [], ◌∷◌, length, get_elem?,
}
use operating_sys.Base.Outcome.{Outcome, done, ◌>>=◌}
use operating_sys.Myfs.{myfs_max_cache, Cache, Mode, myfs_get_inode}

-- The modes of inodes that are asked for one after the other; the n-th object of the cache is
-- allocated at `place n`, the n-th inode of the list gets number `ino + n`.
unfoldable pub get_all : (place : ℕ → ℕ) (ino : ℕ) → List Mode → Cache → Outcome Cache
get_all place ino [] c = done c
get_all place ino (m ∷ ms) c = do
  (inode, c') ← myfs_get_inode (some ino) m (some (place c.cached_count)) c
  get_all place (ino + 1) ms c'

-- the cache as `myfs_init` leaves it; `kmalloc` does not clear the array
abbrev pub empty : (garbage : List (Option ℕ)) → Cache
empty garbage = record {
  inode_ptrs = garbage;
  cached_count = 0;
  live = λ o. false;
  inode_ptr = λ o. 0;
}

module _ (place : ℕ → ℕ) (apart : (i j : ℕ) → place i ≡ place j → i ≡ j) where
  -- Objects `from` to the last are allocated and in their slots, and nothing else is.
  record Holds (from : ℕ) (c : Cache) : Type 0 where
    array : length c.inode_ptrs ≡ myfs_max_cache
    room : c.cached_count ≤ myfs_max_cache
    slots : (i : ℕ) → i < c.cached_count → get_elem? c.inode_ptrs i ≡ some (some (place i))
    kept : (i : ℕ) → from ≤ i → i < c.cached_count → c.live (place i) ≡ true
    only : (o : ℕ) → c.live o ≡ true → (i : ℕ) × (from ≤ i) × (i < c.cached_count) × (place i ≡ o)

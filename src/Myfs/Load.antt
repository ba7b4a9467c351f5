-- ===== src/Myfs/Load.antt =====
-- The error paths of os_02/lab_07/src/myfs.c: the load and the mount.
use operating_sys.Base.{
  ℕ, ◌+◌, ◌≤◌, ◌≡◌, refl, ◌⊎◌, inl, inr, Bool, true, false, not, Option, none, some, arith,
  ℕ_discrete, Bool-cases, Option-cases, update, length, set,
}
use operating_sys.Base.Outcome.{done, fault, ℤ, pos, nonzero}
use operating_sys.Myfs.{
  myfs_max_cache, Cache, cache_get_inode, Mode, directory, initialised, myfs_get_inode, Answers,
  myfs_fill_super, myfs_init,
}

-- The cache behind `cache_get_inode`, while there is room.
abbrev filled : Option ℕ → Cache → Cache
filled allocated c = record c {
  inode_ptrs = set c.inode_ptrs c.cached_count allocated;
  cached_count = c.cached_count + 1;
  live = elim allocated [ none ↦ c.live | some o ↦ update c.live o true ];
}

abbrev owned : ℕ → Option ℕ → Cache → Cache
owned n own c = elim own [ none ↦ c | some o ↦ record c { inode_ptr = update c.inode_ptr o n } ]

get_inode_granted :
    (n : ℕ) (m : Mode) (allocated : Option ℕ) (c : Cache)
    → length c.inode_ptrs ≡ myfs_max_cache
    → c.cached_count ≤ myfs_max_cache
    → (own : Option ℕ) × (c' : Cache) × (myfs_get_inode (some n) m allocated c
        ≡ done (some (initialised n m own), c'))
unfolding myfs_get_inode cache_get_inode
get_inode_granted n m allocated c size room = elim (ℕ_discrete c.cached_count myfs_max_cache) [
  | yes full ↦ (none, c, ground (arith, full))
  | no ne ↦ (allocated, owned n allocated (filled allocated c), ground (arith, size, room))
]

-- A mount succeeds exactly if the kernel grants the inode and makes the root, a directory with two
-- links. It never reports that memory is short: without an inode it reads through a NULL pointer,
-- and without a root it gives back an inode that `d_make_root` has given back before.
pub myfs_fill_super_branches :
    (a : Answers) (c : Cache)
    → length c.inode_ptrs ≡ myfs_max_cache
    → c.cached_count ≤ myfs_max_cache
    → a.references ≡ 0
    → ((a.ino ≡ none) × (myfs_fill_super a c ≡ fault))
      ⊎ ((a.root_made ≡ false) × (myfs_fill_super a c ≡ fault))
      ⊎ ((a.root_made ≡ true)
          × (n : ℕ) × (a.ino ≡ some n)
          × (own : Option ℕ) × (c' : Cache) × (myfs_fill_super a c
              ≡ done (pos 0, some (initialised n directory own), c')))
unfolding myfs_fill_super
myfs_fill_super_branches a c size room dropped = elim (Option-cases a.ino) [
  | inl e ↦ inl (e, rw (e, myfs_get_inode) refl)
  | inr (n, e) ↦
      let (own, c', got) = get_inode_granted n directory a.allocated c size room in
      elim (Bool-cases a.root_made) [
        | inl made ↦ inr (inr (made, n, e, own, c', rw (e, got, made) refl))
        | inr failed ↦ inr (inl (failed, rw (e, got, failed, dropped) refl))
      ]
]

-- The load returns 0 if and only if the module then holds its array and its slab cache; in every
-- case it holds both or neither. Whatever fails behind the registration, the file system stays
-- registered.
pub myfs_init_registered :
    (err : ℤ) (array slab : Bool)
    → (nonzero (myfs_init err array slab).0 ≡ not (myfs_init err array slab).1.slab)
      × ((myfs_init err array slab).1.array ≡ (myfs_init err array slab).1.slab)
      × ((myfs_init err array slab).1.registered ≡ not (nonzero err))
unfolding myfs_init
myfs_init_registered err array slab = ground arith

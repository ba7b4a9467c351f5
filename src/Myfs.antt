-- ===== src/Myfs.antt =====
-- os_02/lab_07/src/myfs.c: a file system without a device, whose inodes get private objects from a
-- slab cache, twelve at most. What the kernel answers is an argument.
pub mod Lifetime
pub mod Load
mod Tests
use operating_sys.Base.{
  ℕ, zero, suc, ◌+◌, ◌-◌, ◌*◌, ◌/◌, ◌%◌, ◌^◌, ◌≤◌, ◌<◌, ◌≡◌, refl, sym, ap, ◌∙◌, subst, ◌≢◌, ◌↔◌,
  ◌⊎◌, inl, inr, Bool, true, false, not, ◌&&◌, ◌||◌, Option, none, some, List, [], ◌∷◌, ◌++◌, map,
  append_assoc, append-nil, arith, dec_lt, ℕ_discrete, ltb, leb, ◌==◌, if◌then◌else◌, ltb→lt,
  lt→ltb, leb→le, ==_iff, tests, Bool-cases, Option-cases, update, length, get_elem?, get_or, set,
  take, drop, replicate, All, length-append, length-take, take-append, length-set, length-replicate,
  get_elem?-set_self, get_elem?-set_ne, take-of_le,
}
use operating_sys.Base.Outcome.{
  Outcome, done, exited, aborted, fault, out_of_fuel, ◌>>=◌, ◌>>◌, char_at, ℤ, pos, negsuc, minus,
  nonzero, negative, within,
}

abbrev pub myfs_max_cache : ℕ
myfs_max_cache = 12

-- `inode_ptrs`, `cached_count`, and the objects of the slab cache: whether the one at an address is
-- allocated, and its `inode_ptr`.
pub record Cache : Type 0 where
  pub inode_ptrs : List (Option ℕ)
  pub cached_count : ℕ
  pub live : ℕ → Bool
  pub inode_ptr : ℕ → ℕ

-- `allocated` is what `kmem_cache_alloc` would answer. A slot outside the array is a fault.
pub cache_get_inode : (allocated : Option ℕ) → Cache → Outcome (Option ℕ × Cache)
cache_get_inode allocated c = if c.cached_count == myfs_max_cache then done (none, c) else do
  within (c.cached_count + 1) (length c.inode_ptrs)
  done (
    allocated,
    record c {
      inode_ptrs = set c.inode_ptrs c.cached_count allocated;
      cached_count = c.cached_count + 1;
      live = elim allocated [ none ↦ c.live | some o ↦ update c.live o true ];
    },
  )

pub data Mode : Type 0 where
  directory : Mode
  regular : Mode
  special : Mode

pub data Operations : Type 0 where
  unset : Operations
  simple_dir : Operations
  myfs_file : Operations

pub record Inode : Type 0 where
  pub i_ino : ℕ
  pub i_mode : Mode
  pub i_nlink : ℕ
  pub i_private : Option ℕ
  pub i_op : Operations

abbrev pub links : Mode → ℕ
links directory = 2
links regular = 1
links special = 1

abbrev pub operations : Mode → Operations
operations directory = simple_dir
operations regular = myfs_file
operations special = unset

abbrev pub initialised : ℕ → Mode → Option ℕ → Inode
initialised n mode own = record {
  i_ino = n;
  i_mode = mode;
  i_nlink = links mode;
  i_private = own;
  i_op = operations mode;
}

-- `ino` is the number of the new inode, `none` where `new_inode` fails. A new inode has one link.
unfoldable pub myfs_get_inode :
    (ino : Option ℕ) (mode : Mode) (allocated : Option ℕ) → Cache → Outcome (Option Inode × Cache)
unfolding cache_get_inode
myfs_get_inode none mode allocated c = done (none, c)
myfs_get_inode (some n) mode allocated c = do
  (own, c') ← cache_get_inode allocated c
  done (
    some (initialised n mode own),
    elim own [ none ↦ c' | some o ↦ record c' { inode_ptr = update c'.inode_ptr o n } ],
  )

-- `iput` on an inode with `references` left
abbrev pub iput : (references : ℕ) → Outcome ℕ
iput zero = fault
iput (suc n) = done n

-- what the kernel answers to `myfs_fill_super`: `references` is how many the inode has after
-- `d_make_root`
pub record Answers : Type 0 where
  pub ino : Option ℕ
  pub allocated : Option ℕ
  pub root_made : Bool
  pub references : ℕ

-- The result and the root of the super block. The links are printed before the test for NULL.
unfoldable pub myfs_fill_super : Answers → Cache → Outcome (ℤ × Option Inode × Cache)
unfolding myfs_get_inode
myfs_fill_super a c = do
  (root, c') ← myfs_get_inode a.ino directory a.allocated c
  elim root [
    | none ↦ fault
    | some inode ↦
        if a.root_made
        then done (pos 0, some inode, c')
        else do _ ← iput a.references; done (minus 12, none, c')
  ]

-- the loop of `free_own_icache`, for `n` slots from `i` on; only an allocated object may be freed
unfoldable pub free_from : (n i : ℕ) → Cache → Outcome Cache
free_from zero i c = done c
free_from (suc n) i c = elim (get_elem? c.inode_ptrs i) [
  | none ↦ fault
  | some none ↦ fault
  | some (some o) ↦
      let rest = free_from n (i + 1) (record c { live = update c.live o false }) in
      if c.live o then rest else fault
]

pub free_own_icache : Cache → Outcome Cache
unfolding free_from
free_own_icache c = free_from c.cached_count 0 c

-- What the module holds after a load.
pub record Held : Type 0 where
  pub registered : Bool
  pub array : Bool
  pub slab : Bool

abbrev pub held : Bool → Bool → Bool → Held
held r a s = record { registered = r; array = a; slab = s }

-- `err` is what `register_filesystem` answers; `array` and `slab` are whether `kmalloc` and
-- `kmem_cache_create` succeed.
unfoldable pub myfs_init : (err : ℤ) (array slab : Bool) → ℤ × Held
myfs_init err array slab =
    if nonzero err
    then (err, held false false false)
    else if not array
    then (minus 12, held true false false)
    else if not slab
    then (minus 12, held true false false)
    else (pos 0, held true true true)

-- `myfs_exit`; `unregister_filesystem` does not fail for what is registered.
pub myfs_exit : Held → Cache → Outcome (Held × Cache)
unfolding free_own_icache
myfs_exit h c = do c' ← free_own_icache c; done (held false false false, c')

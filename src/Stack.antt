-- ===== src/Stack.antt =====
-- os_02/lab_dir_of_catalog/lab_own/stack_t.c: a linked stack on the heap.
pub mod Chain
mod Tests
use operating_sys.Base.{
  ℕ, zero, suc, ◌+◌, ◌-◌, ◌*◌, ◌/◌, ◌%◌, ◌^◌, ◌≤◌, ◌<◌, ◌≡◌, refl, sym, ap, ◌∙◌, subst, ◌≢◌, ◌↔◌,
  ◌⊎◌, inl, inr, Bool, true, false, not, ◌&&◌, ◌||◌, Option, none, some, List, [], ◌∷◌, ◌++◌, map,
  append_assoc, append-nil, arith, dec_lt, ℕ_discrete, ltb, leb, ◌==◌, if◌then◌else◌, ltb→lt,
  lt→ltb, leb→le, ==_iff, tests, Bool-cases, Option-cases, update, length, get_elem?, get_or, set,
  take, drop, replicate, All, length-append, length-take, take-append, length-set, length-replicate,
  get_elem?-set_self, get_elem?-set_ne, take-of_le,
}
use operating_sys.Base.Outcome.{
  Outcome, done, exited, aborted, fault, out_of_fuel, ◌>>=◌, ◌>>◌, char_at, ℤ, pos, negsuc, minus,
  nonzero, negative, within,
}

-- A pointer is an address, or `none` for NULL.
abbrev pub Pointer : Type 0
Pointer = Option ℕ

pub record Node : Type 0 where
  pub data_text : List ℕ
  pub level : ℕ
  pub inode : ℕ
  pub next : Pointer

-- The nodes by their addresses, `none` where there is none, and `top` of the one stack.
pub record Heap : Type 0 where
  pub nodes : ℕ → Option Node
  pub top : Pointer

-- `malloc` does not clear the stack: `garbage` is what `top` then holds.
pub init_stack : (garbage : Pointer) → Heap
init_stack garbage = record { nodes = λ a. none; top = garbage }

-- `address` is what `malloc` answers.
pub init_node : (address : Pointer) (txt : List ℕ) (level inode : ℕ) → Heap → Pointer × Heap
init_node none txt l i h = (none, h)
init_node (some a) txt l i h = (
  some a,
  record h {
    nodes = update h.nodes a (some (record { data_text = txt; level = l; inode = i; next = none }));
  },
)

-- Without a node the process leaves with EXIT_FAILURE.
unfoldable pub push : (new_node : Pointer) → Heap → Outcome Heap
push none h = exited 1
push (some a) h = elim h.top [
  | none ↦ done (record h { top = some a })
  | some b ↦ elim (h.nodes a) [
    | none ↦ fault
    | some n ↦
        done (record { nodes = update h.nodes a (some (record n { next = some b })); top = some a })
  ]
]

pub free_node : Pointer → Heap → Outcome Heap
free_node none h = done h
free_node (some a) h = elim (h.nodes a) [
  | none ↦ fault
  | some n ↦ done (record h { nodes = update h.nodes a none })
]

-- `keep` is the mode: the node is handed out if it is true, and freed if not.
unfoldable pub pop : (keep : Bool) → Heap → Outcome (Pointer × Heap)
unfolding free_node
pop keep h = elim h.top [
  | none ↦ fault
  | some a ↦ elim (h.nodes a) [
    | none ↦ fault
    | some n ↦
        if keep
        then done (some a, record h { top = n.next })
        else do h' ← free_node (some a) (record h { top = n.next }); done (none, h')
  ]
]

pub is_free : Heap → Bool
is_free h = elim h.top [ none ↦ true | some a ↦ false ]

-- The loop of `free_stack` with `fuel` rounds. `free(stk)` then gives back the memory of the stack
-- itself, which is not one of the nodes.
unfoldable pub free_stack : (fuel : ℕ) → Heap → Outcome Heap
unfolding pop is_free
free_stack zero h = if is_free h then done h else out_of_fuel
free_stack (suc fuel) h = if is_free h then done h else do (p, h') ← pop false h; free_stack fuel h'

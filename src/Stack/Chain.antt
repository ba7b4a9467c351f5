-- ===== src/Stack/Chain.antt =====
-- The stack of os_02/lab_dir_of_catalog/lab_own/stack_t.c as a list of nodes.
use operating_sys.Base.{
  ℕ, ◌≡◌, refl, ◌≢◌, true, Option, none, some, List, [], ◌∷◌, arith, update, All,
}
use operating_sys.Base.Outcome.{done}
use operating_sys.Stack.{Pointer, Node, Heap, init_node, push, pop}

-- What the list says of a node: its text, its level and its inode.
abbrev pub Item : Type 0
Item = List ℕ × ℕ × ℕ

abbrev pub item : Node → Item
item n = (n.data_text, n.level, n.inode)

-- From `p` on the heap holds nodes at the addresses `ads`, all different, with the items `xs`.
unfoldable pub Chain : (ℕ → Option Node) → Pointer → (ads : List ℕ) → (xs : List Item) → Type 0
Chain nodes p [] xs = (p ≡ none) × (xs ≡ [])
Chain nodes p (a ∷ ads) [] = ⊥
Chain nodes p (a ∷ ads) (x ∷ xs) =
    (p ≡ some a)
    × (n : Node) × (nodes a ≡ some n)
    × (item n ≡ x)
    × All (λ b. a ≢ b) ads
    × Chain nodes n.next ads xs

-- A change at an address off the chain leaves it.
Chain-update :
    (nodes : ℕ → Option Node) (a : ℕ) (v : Option Node) (p : Pointer) (ads : List ℕ)
    (xs : List Item)
    → Chain nodes p ads xs
    → All (λ b. a ≢ b) ads
    → Chain (update nodes a v) p ads xs
unfolding Chain
Chain-update nodes a v p [] xs c off = c
Chain-update nodes a v p (b ∷ ads) [] c off = c
Chain-update nodes a v p (b ∷ ads) (x ∷ xs) (at, n, here, same, apart, rest) (ne, off) =
    (at, n, ground arith, same, apart, Chain-update nodes a v n.next ads xs rest off)

Chain-push :
    (h : Heap) (a : ℕ) (n : Node) (ads : List ℕ) (xs : List Item)
    → Chain h.nodes h.top ads xs
    → h.nodes a ≡ some n
    → n.next ≡ none
    → All (λ b. a ≢ b) ads
    → (h' : Heap) × (push (some a) h ≡ done h') × Chain h'.nodes h'.top (a ∷ ads) (item n ∷ xs)
unfolding push Chain
Chain-push h a n [] xs (empty, nil) here last off =
    (record h { top = some a }, rw empty refl, (refl, n, here, refl, off, (last, nil)))
Chain-push h a n (b ∷ ads) [] c here last off = absurd c
Chain-push h a n (b ∷ ads) (x ∷ xs) (at, m, there, same, apart, rest) here last off =
    let v : Node = record n { next = some b } in
    (
      record { nodes = update h.nodes a (some v); top = some a },
      rw (at, here) refl,
      (
        refl,
        v,
        ground arith,
        refl,
        off,
        Chain-update h.nodes a (some v) (some b) (b ∷ ads) (x ∷ xs)
            (refl, m, there, same, apart, rest) off,
      ),
    )

Chain-pop :
    (h : Heap) (a : ℕ) (ads : List ℕ) (x : Item) (xs : List Item)
    → Chain h.nodes h.top (a ∷ ads) (x ∷ xs)
    → (n : Node) × (h.nodes a ≡ some n)
      × (item n ≡ x)
      × (pop true h ≡ done (some a, record h { top = n.next }))
      × Chain h.nodes n.next ads xs
unfolding pop Chain
Chain-pop h a ads x xs (at, n, here, same, apart, rest) = (n, here, same, rw (at, here) refl, rest)

-- On a stack of nodes at different addresses, a node that is made at a fresh address and pushed is
-- the one that the next `pop` hands out, with its text, level and inode, and what is then on the
-- stack is what was there before.
pub pop-push :
    (h : Heap) (a : ℕ) (txt : List ℕ) (l i : ℕ) (ads : List ℕ) (xs : List Item)
    → Chain h.nodes h.top ads xs
    → All (λ b. a ≢ b) ads
    → (h1 : Heap) × (push (init_node (some a) txt l i h).0 (init_node (some a) txt l i h).1
        ≡ done h1)
      × (h2 : Heap) × (pop true h1 ≡ done (some a, h2))
      × (n : Node) × (h2.nodes a ≡ some n)
      × (item n ≡ (txt, l, i))
      × Chain h2.nodes h2.top ads xs
unfolding init_node
pop-push h a txt l i ads xs c off =
    let v : Node = record { data_text = txt; level = l; inode = i; next = none } in
    let (h1, pushed, c1) =
      Chain-push (record h { nodes = update h.nodes a (some v) }) a v ads xs
        (Chain-update h.nodes a (some v) h.top ads xs c off) (ground arith) refl off in
    let (n, here, same, popped, c2) = Chain-pop h1 a ads (txt, l, i) xs c1 in
    (h1, pushed, record h1 { top = n.next }, popped, n, here, same, c2)

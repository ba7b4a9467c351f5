-- ===== src/Stack/Tests.antt =====
-- Runs of the model of os_02/lab_dir_of_catalog/lab_own/stack_t.c.
use operating_sys.Base.{◌≡◌, refl, true, false, none, some, [], ◌∷◌, ◌==◌, if◌then◌else◌}
use operating_sys.Base.Outcome.{fault}
use operating_sys.Stack.{Node, Heap, init_stack, pop, is_free}
use operating_sys.Stack.Chain.{Chain}

abbrev one : Node
one = record { data_text = 97 ∷ []; level = 0; inode = 5; next = none }

abbrev two : Node
two = record { data_text = 98 ∷ []; level = 1; inode = 6; next = some 40 }

abbrev stacked : Heap
stacked = record {
  nodes = λ a. if a == 40 then some one else if a == 80 then some two else none;
  top = some 80;
}

-- An empty stack is one whose memory happened to be clear; an empty stack must not be popped.
fresh_stack : (is_free (init_stack none) ≡ true) × (is_free (init_stack (some 3)) ≡ false)
unfolding is_free init_stack
fresh_stack = (refl, refl)

pop_empty : pop true (init_stack none) ≡ fault
unfolding pop init_stack
pop_empty = refl

-- ===== src/Pagemap/Pages.antt =====
-- The loop of os_02/lab_04/src/part_01/pagemap.c over the pages of a range.
use operating_sys.Base.{
  ℕ, zero, suc, ◌+◌, ◌*◌, ◌/◌, ◌%◌, ◌≤◌, ◌≡◌, refl, inl, inr, true, Option, none, some, List, [],
  ◌∷◌, arith, ltb, lt→ltb, Option-cases,
}
use operating_sys.Base.Outcome.{done}
use operating_sys.Pagemap.{word, Page, print_page, handle_virtual_range}

-- The entries that the page map holds for `n` pages from `i` on, up to the first that cannot be
-- read.
unfoldable pub entries : (pread : ℕ → Option ℕ) (n page : ℕ) → List Page
entries pread zero page = []
entries pread (suc n) page = elim (pread (page * 8)) [
  | none ↦ []
  | some entry ↦ print_page (page * 4096) entry ∷ entries pread n (page + 1)
]

-- Over the addresses of `n` whole pages that end below the last page of the address space, the loop
-- ends within `n` rounds, and prints the entries of these pages in order, up to the first one that
-- `pread` does not give.
pub handle_virtual_range-entries :
    (pread : ℕ → Option ℕ) (n page fuel : ℕ)
    → page * 4096 + n * 4096 + 4096 ≤ word
    → n ≤ fuel
    → handle_virtual_range pread fuel (page * 4096) (page * 4096 + n * 4096)
      ≡ done (entries pread n page)
unfolding handle_virtual_range entries
handle_virtual_range-entries pread zero page zero fits enough = ground arith
handle_virtual_range-entries pread zero page (suc fuel) fits enough = ground arith
handle_virtual_range-entries pread (suc n) page zero fits enough = absurd (omega arith)
handle_virtual_range-entries pread (suc n) page (suc fuel) fits enough =
    let inside : ltb (page * 4096) (page * 4096 + suc n * 4096) ≡ true = lt→ltb _ _ (omega arith) in
    let here : page * 4096 / 4096 ≡ page = omega arith in
    let next : (page * 4096 + 4096) % word ≡ (page + 1) * 4096 = omega arith in
    let end : page * 4096 + suc n * 4096 ≡ (page + 1) * 4096 + n * 4096 = omega arith in
    let rest = handle_virtual_range-entries pread n (page + 1) fuel (omega arith) (omega arith) in
    elim (Option-cases (pread (page * 8))) [
      | inl e ↦ rw (inside, here, e, entries) refl
      | inr (entry, e) ↦ rw (inside, here, e, next, end, rest, entries) refl
    ]

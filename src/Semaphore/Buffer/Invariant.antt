-- ===== src/Semaphore/Buffer/Invariant.antt =====
-- The invariant of os_01/lab_05/01.c: the counts, and what the buffer holds.
use operating_sys.Base.{length-snoc, ℕ, ◌<◌, ◌≡◌, refl, sym, [], ◌∷◌, ◌++◌, arith, update}
use operating_sys.Base.Family.{sum_over}
use operating_sys.Semaphore.Buffer.{
  Shared, Process, Move, prod_enter, prod_write, prod_advance, prod_leave, cons_enter, cons_take,
  cons_advance, cons_leave, System, process_count, initial, Step, pick, Reach, start, later,
}
use operating_sys.Semaphore.Buffer.Counts.{
  Counts, Contents, mover, Move-Counts, get_elem?-snoc, Settled, settled, consumed_behind,
  granted_item,
}

module _ {m : Shared} {f : ℕ → Process} (i : ℕ) (c : Counts m f) (below : i < process_count)
    (k : Contents m) where
  write-Contents :
      (v : ℕ)
      → Settled m
      → Contents
          (record m { buffer = update m.buffer m.pos_prod v; produced = m.produced ++ v ∷ [] })
  write-Contents v s = record {
    stored =
        λ j bj. ground (arith, get_elem?-snoc m.produced v j, length-snoc m.produced v, k.stored j);
    order = λ j bj. ground (arith, get_elem?-snoc m.produced v j, consumed_behind c, k.order j);
  }

  take-Contents :
      Settled m
      → m.pos_consum < m.pos_prod
      → Contents (record m { consumed = m.consumed ++ m.buffer m.pos_consum ∷ [] })
  take-Contents s item = record {
    stored = k.stored;
    order = λ j bj. ground (
      arith,
      get_elem?-snoc m.consumed (m.buffer m.pos_consum) j,
      length-snoc m.consumed (m.buffer m.pos_consum),
      k.stored m.pos_consum,
      k.order j,
    );
  }

  Move-Contents : {m' : Shared} {p q : Process} → Move m p m' q → p ≡ f i → Contents m'
  Move-Contents (prod_enter e) pe = record { stored = k.stored; order = k.order }
  Move-Contents (prod_write {v}) pe = write-Contents v (settled i c below (rw (sym pe)))
  Move-Contents prod_advance pe = record { stored = k.stored; order = k.order }
  Move-Contents (prod_leave e) pe = record { stored = k.stored; order = k.order }
  Move-Contents (cons_enter e) pe = record { stored = k.stored; order = k.order }
  Move-Contents cons_take pe =
      take-Contents (settled i c below (rw (sym pe))) (granted_item i c below (rw (sym pe)))
  Move-Contents cons_advance pe = record { stored = k.stored; order = k.order }
  Move-Contents (cons_leave e) pe = record { stored = k.stored; order = k.order }

pub record Inv (s : System) : Type 0 where
  pub counts : Counts s.shared s.process
  pub contents : Contents s.shared

Step-Inv : {s t : System} → Step s t → Inv s → Inv t
Step-Inv {s} (pick i {p} below mv) inv = record {
  counts = Move-Counts i mv inv.counts (mover i s.process p below);
  contents = Move-Contents i inv.counts below inv.contents mv refl;
}

initial-Inv : Inv initial
unfolding sum_over
initial-Inv = record {
  counts = record {
    mutex = refl;
    slots = refl;
    items = refl;
    made = refl;
    taken = refl;
    written = refl;
    seen = refl;
  };
  contents = record {
    stored = λ i below. absurd (omega arith);
    order = λ i below. absurd (omega arith);
  };
}

-- The invariant holds in every state that the five processes reach.
pub Reach-Inv : {s : System} → Reach s → Inv s
Reach-Inv start = initial-Inv
Reach-Inv (later r st) = Step-Inv st (Reach-Inv r)

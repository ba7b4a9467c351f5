-- ===== src/Server/Watch.antt =====
-- What `select` is asked to watch.
use operating_sys.Base.{
  ℕ, ◌≤◌, ◌≡◌, refl, ◌∙◌, ◌⊎◌, inl, Bool, true, false, ◌&&◌, ◌||◌, List, [], ◌∷◌, arith, ltb, ◌==◌,
  if◌then◌else◌, set, All,
}
use operating_sys.Server.{Clients, watch}

unfoldable pub has : ℕ → List ℕ → Bool
has x [] = false
has x (y ∷ ys) = x == y || has x ys

watch-has :
    (cs : Clients) (set : List ℕ) (m x : ℕ)
    → has x (watch set m cs).0 ≡ (has x set || (ltb 0 x && has x cs))
unfolding watch has
watch-has [] set m x = ground arith
watch-has (c ∷ cs) set m x =
    ground (arith, watch-has cs (if ltb 0 c then c ∷ set else set) (if ltb m c then c else m) x)

watch-le :
    (cs : Clients) (set : List ℕ) (m : ℕ)
    → (m ≤ (watch set m cs).1) × All (λ c. c ≤ (watch set m cs).1) cs
unfolding watch
watch-le [] set m = (omega arith, tt)
watch-le (c ∷ cs) set m =
    let r = watch-le cs (if ltb 0 c then c ∷ set else set) (if ltb m c then c else m) in
    (ground (arith, r.0), (ground (arith, r.0), r.1))

watch_attained :
    (cs : Clients) (set : List ℕ) (m : ℕ)
    → ((watch set m cs).1 ≡ m) ⊎ (has (watch set m cs).1 cs ≡ true)
unfolding watch has
watch_attained [] set m = inl refl
watch_attained (c ∷ cs) set m =
    ground (arith, watch_attained cs (if ltb 0 c then c ∷ set else set) (if ltb m c then c else m))

-- The set for `select` holds the listening socket and every client's descriptor, and nothing
-- else; a free slot adds nothing. The bound that `select` is given lies one above the greatest of
-- them.
pub watch_lem :
    (master : ℕ) (cs : Clients) (x : ℕ)
    → (has x (watch (master ∷ []) master cs).0 ≡ (x == master || (ltb 0 x && has x cs)))
      × (master ≤ (watch (master ∷ []) master cs).1)
      × All (λ c. c ≤ (watch (master ∷ []) master cs).1) cs
      × (((watch (master ∷ []) master cs).1 ≡ master)
          ⊎ (has (watch (master ∷ []) master cs).1 cs ≡ true))
unfolding has
watch_lem master cs x = (
  watch-has cs (master ∷ []) master x ∙ ground arith,
  (watch-le cs (master ∷ []) master).0,
  (watch-le cs (master ∷ []) master).1,
  watch_attained cs (master ∷ []) master,
)

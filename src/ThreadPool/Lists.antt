-- ===== src/ThreadPool/Lists.antt =====
-- What holds of every worker of a list, when one of them is replaced.
use mvvmm.Base.{ℕ, zero, suc, List, [], ◌∷◌, HoldsOf, get_elem?, set, replicate}

module _ {A : Type 0} (P : A → Type 0) where
  abbrev pub All : List A → Type 0
  All [] = Unit {0}
  All (a ∷ as') = P a × All as'

  pub All-get : (xs : List A) (i : ℕ) → All xs → HoldsOf P (get_elem? xs i)
  All-get [] i h = tt
  All-get (x ∷ xs) zero h = h.0
  All-get (x ∷ xs) (suc i) h = All-get xs i h.1

  pub All-set : (xs : List A) (i : ℕ) (a : A) → All xs → P a → All (set xs i a)
  All-set [] i a h p = tt
  All-set (x ∷ xs) zero a h p = (p, h.1)
  All-set (x ∷ xs) (suc i) a h p = (h.0, All-set xs i a h.1 p)

  pub All-replicate : (n : ℕ) (a : A) → P a → All (replicate n a)
  All-replicate zero a p = tt
  All-replicate (suc n) a p = (p, All-replicate n a p)

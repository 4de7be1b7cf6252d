-- ===== src/ThreadPool/Bag.antt =====
-- The tasks of the pool as a bag: those that have been stored are those that have been run or wait.
use mathlib.Core.List.{Perm, perm_middle}
use mathlib.Core.List.Perm
use mvvmm.Base.{
  ℕ, Option, none, some, zero, suc, ◌≡◌, refl, sym, subst, List, [], ◌∷◌, ◌++◌, append_assoc,
  replicate,
}
use mvvmm.ThreadPool.{Pool, new_worker_thread, new_thread_pool}
use mvvmm.ThreadPool.Steps.{Reachable, created, then_step}
use mvvmm.ThreadPool.Refinement.{
  Tasks, Move, stores, finishes, stays, stored_in, stored_by, Step-Move,
}

module _ {T : Type 0} where
  abbrev listed : Option T → List T
  listed none = []
  listed (some t) = t ∷ []

  -- The tasks that have been stored on the way to a state, latest first.
  abbrev pub all_stored : {n : ℕ} {s : Pool T} → Reachable n s → List T
  all_stored created = []
  all_stored (then_step r step) = listed (stored_by step) ++ all_stored r

  bag : Tasks T → List T
  bag p = p.stored ++ p.finished

  out_of_the_middle :
      (t : T) (xs ys zs : List T) → Perm ((xs ++ t ∷ ys) ++ zs) (t ∷ ((xs ++ ys) ++ zs))
  out_of_the_middle t xs ys zs =
      subst (λ l. Perm l (t ∷ ((xs ++ ys) ++ zs))) (sym (append_assoc xs (t ∷ ys) zs))
        (subst (λ l. Perm (xs ++ t ∷ (ys ++ zs)) (t ∷ l)) (sym (append_assoc xs ys zs))
          (perm_middle xs (ys ++ zs)))

  Move-bag : {p q : Tasks T} {o : Option T} → Move p o q → Perm (bag q) (listed o ++ bag p)
  unfolding bag
  Move-bag {p = p} (stores t xs ys e) =
      subst (λ l. Perm ((xs ++ t ∷ ys) ++ p.finished) (t ∷ (l ++ p.finished))) (sym e)
        (out_of_the_middle t xs ys p.finished)
  Move-bag {p = p} (finishes t xs ys e) =
      subst (λ l. Perm ((xs ++ ys) ++ t ∷ p.finished) (l ++ p.finished)) (sym e)
        (Perm.trans (perm_middle (xs ++ ys) p.finished)
          (Perm.symm (out_of_the_middle t xs ys p.finished)))
  Move-bag stays = Perm.rfl

  none_stored : (n : ℕ) → stored_in {T = T} (replicate n new_worker_thread) ≡ []
  unfolding stored_in new_worker_thread
  none_stored zero = refl
  none_stored (suc n) = none_stored n

  -- In every state that the threads of a pool reach, the tasks that wait and those that have been run
  -- are together exactly those that have been stored, each as often as it has been stored.
  pub Reachable-bag :
      (n : ℕ) (s : Pool T) (r : Reachable n s)
      → Perm (stored_in s.workers ++ s.finished) (all_stored r)
  unfolding bag new_thread_pool
  Reachable-bag n s created = subst (λ l. Perm (l ++ []) []) (sym (none_stored n)) Perm.rfl
  Reachable-bag n s (then_step {s = s'} r step) =
      Perm.trans (Move-bag (Step-Move n s' s r step))
        (Perm.append_left (listed (stored_by step)) (Reachable-bag n s' r))

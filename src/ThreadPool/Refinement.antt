-- ===== src/ThreadPool/Refinement.antt =====
-- The pool as its callers see it: tasks that are stored, in any order, and tasks that have been run.
use mvvmm.Base.{
  some_inj, none-some, ℕ, zero, suc, ◌≡◌, refl, sym, ap, subst, ◌∙◌, Bool, true, false, Option,
  none, some, if◌then◌else◌, List, [], ◌∷◌, ◌++◌, append_assoc, get_elem?, set, inl, inr,
}
use mvvmm.ThreadPool.{Worker, Pool, hand_over, log}
use mvvmm.ThreadPool.Steps.{Step, chooses, refuses, races, hands_over, works, deletes, Reachable}
use mvvmm.ThreadPool.Turn.{
  IsSettled, IsCounted, Runs, worker_step-StepsTo, chosen, claim-Found, hand_over-stores,
}
use mvvmm.ThreadPool.Invariant.{at_index, Reachable-IsSound}

-- What a pool promises, without workers: `stored` is a bag, whose order has no meaning.
pub record Tasks (T : Type 0) : Type 0 where
  pub stored : List T
  pub finished : List T

module _ {T : Type 0} where
  -- A task is stored, which is the label, or one of the stored tasks is run and leaves.
  pub data Move (p : Tasks T) : Option T → Tasks T → Type 0 where
    stores :
        (t : T) (xs ys : List T)
        → p.stored ≡ xs ++ ys
        → Move p (some t) (record { stored = xs ++ t ∷ ys; finished = p.finished })
    finishes :
        (t : T) (xs ys : List T)
        → p.stored ≡ xs ++ t ∷ ys
        → Move p none (record { stored = xs ++ ys; finished = t ∷ p.finished })
    stays : Move p none p

  slot : Option T → List T
  slot none = []
  slot (some t) = t ∷ []

  unfoldable pub stored_in : List (Worker T) → List T
  unfolding slot
  stored_in [] = []
  stored_in (w ∷ ws) = slot w.task ++ stored_in ws

  abbrev pub tasks_of : Pool T → Tasks T
  tasks_of s = record { stored = stored_in s.workers; finished = s.finished }

  -- The tasks on both sides of worker `i`.
  record Around (ws : List (Worker T)) (i : ℕ) (w : Worker T) : Type 0 where
    left : List T
    right : List T
    before : stored_in ws ≡ left ++ (slot w.task ++ right)
    after : (w' : Worker T) → stored_in (set ws i w') ≡ left ++ (slot w'.task ++ right)

  around : (ws : List (Worker T)) (i : ℕ) (w : Worker T) → get_elem? ws i ≡ some w → Around ws i w
  unfolding stored_in
  around [] i w e = absurd (none-some e)
  around (w' ∷ ws) zero w e = record {
    left = [];
    right = stored_in ws;
    before = ap (λ w. slot w.task ++ stored_in ws) (some_inj e);
    after = λ w''. refl;
  }
  around (w' ∷ ws) (suc i) w e =
      let rest = around ws i w e in
      record {
        left = slot w'.task ++ rest.left;
        right = rest.right;
        before =
            ap (◌++◌ (slot w'.task)) rest.before
            ∙ sym (append_assoc (slot w'.task) rest.left (slot w.task ++ rest.right));
        after = λ w''.
            ap (◌++◌ (slot w'.task)) (rest.after w'')
            ∙ sym (append_assoc (slot w'.task) rest.left (slot w''.task ++ rest.right));
      }

  -- A worker replaced by one with the same task.
  same_task :
      (s : Pool T) (i : ℕ) (w w' : Worker T) (q : Bool)
      → get_elem? s.workers i ≡ some w
      → w'.task ≡ w.task
      → Move (tasks_of s) none (tasks_of (record s { workers = set s.workers i w'; quit = q }))
  same_task s i w w' q at_i e =
      let a = around s.workers i w at_i in
      subst (λ ts. Move (tasks_of s) none (record { stored = ts; finished = s.finished }))
        (a.before ∙ ap (λ o. a.left ++ (slot o ++ a.right)) (sym e) ∙ sym (a.after w')) stays

  given :
      (s : Pool T) (t : T) (before behind : List T) (i : ℕ) (w : Worker T) (quit : Bool)
      → get_elem? s.workers i ≡ some w
      → (quit ≡ false → w.task ≡ none)
      → Move (tasks_of s) (if quit then none else some t) (
          tasks_of (record s { workers = set s.workers i (hand_over quit w t (before ++ behind)) }))
  unfolding hand_over slot
  given s t before behind i w true at_i empty =
      same_task s i w (record w { callers = before ++ behind }) s.quit at_i refl
  given s t before behind i w false at_i empty =
      let a = around s.workers i w at_i in
      subst (λ ts. Move (tasks_of s) (some t) (record { stored = ts; finished = s.finished }))
        (sym (a.after (record w { task = some t; callers = before ++ behind })))
        (stores t a.left a.right (a.before ∙ ap (λ o. a.left ++ (slot o ++ a.right)) (empty refl)))

  worked :
      (s : Pool T) (i : ℕ) (w w' : Worker T) (ran : Option T)
      → get_elem? s.workers i ≡ some w
      → Runs w (w', ran)
      → Move
          (tasks_of s)
          none
          (tasks_of (record s { workers = set s.workers i w'; finished = log ran s.finished }))
  unfolding log slot
  worked s i w w' ran at_i (inl (e, same)) = rw e (same_task s i w w' s.quit at_i same)
  worked s i w w' ran at_i (inr (t, there, gone, e)) =
      let a = around s.workers i w at_i in
      let left_over : stored_in (set s.workers i w') ≡ a.left ++ a.right =
        a.after w' ∙ ap (λ o. a.left ++ (slot o ++ a.right)) gone in
      rw e (
        subst (λ ts. Move (tasks_of s) none (record { stored = ts; finished = t ∷ s.finished }))
          (sym left_over)
          (finishes t a.left a.right (a.before ∙ ap (λ o. a.left ++ (slot o ++ a.right)) there)))

  -- The task that a step of a thread stores: the one that a call hands over, unless the pool ends.
  abbrev pub stored_by : {s s' : Pool T} → Step s s' → Option T
  stored_by {s = s} (hands_over t before behind i w at_i e free) = if s.quit then none else some t
  stored_by _ = none

  -- From every state that the threads of a pool of `n` workers reach, every step of one of them is,
  -- for the tasks, one of three: the task that a call hands over before the pool ends is stored
  -- beside the others, one of the stored tasks has been run and leaves, or nothing happens. So no
  -- task is lost, overwritten or run twice.
  pub Step-Move :
      (n : ℕ) (s s' : Pool T) (r : Reachable n s) (step : Step s s')
      → Move (tasks_of s) (stored_by step) (tasks_of s')
  Step-Move n s s' r (chooses t ws e) =
      let (i, w, at_i, free, is) = claim-Found s.workers ws t e in
      subst (λ ws. Move (tasks_of s) none (record { stored = stored_in ws; finished = s.finished }))
        (sym is) (same_task s i w (chosen w t) s.quit at_i refl)
  Step-Move n s s' r (refuses t e) = stays
  Step-Move n s s' r (races t i w quit at_i) = same_task s i w (chosen w t) s.quit at_i refl
  Step-Move n s s' r (hands_over t before behind i w at_i e free) =
      let sound = Reachable-IsSound n r in
      given s t before behind i w s.quit at_i λ open'.
        (hand_over-stores w t before behind
          (at_index IsCounted s.workers i w (sound.counted open') at_i) e free).0
  Step-Move n s s' r (works i w w' ran at_i e) =
      let sound = Reachable-IsSound n r in
      worked s i w w' ran at_i
        (worker_step-StepsTo s.quit w w' ran (at_index IsSettled s.workers i w sound.settled at_i)
          e).2
  Step-Move n s s' r deletes = stays

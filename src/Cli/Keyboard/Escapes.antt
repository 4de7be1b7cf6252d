-- ===== src/Cli/Keyboard/Escapes.antt =====
-- The keyboard's thread against the strokes that are typed.
use mvvmm.Base.{
  ℕ, ◌≡◌, ◌≢◌, refl, ap, ◌∙◌, Bool, true, false, none, some, List, [], ◌∷◌, ◌++◌, ne→==,
}
use mvvmm.Cli.Keyboard.{
  Polled, readable, hung_up, timed_out, poll_failed, timed_getchar, Action, send, interrupt, key,
  keyboard_loop, keyboard_thread_func,
}

-- The characters that arrive until the machine quits.
unfoldable pub typed : List (Bool × Polled) → List ℕ
typed [] = []
typed ((true, polled) ∷ rounds) = []
typed ((false, readable (some c)) ∷ rounds) = c ∷ typed rounds
typed ((false, readable none) ∷ rounds) = typed rounds
typed ((false, hung_up) ∷ rounds) = typed rounds
typed ((false, timed_out) ∷ rounds) = typed rounds
typed ((false, poll_failed) ∷ rounds) = typed rounds

-- A character other than Ctrl+A; Ctrl+A twice; Ctrl+A and Ctrl+C; Ctrl+A and another character.
pub data Stroke : Type 0 where
  plain : (c : ℕ) → c ≢ 1 → Stroke
  doubled : Stroke
  stop : Stroke
  escaped : (c : ℕ) → c ≢ 1 → c ≢ 3 → Stroke

unfoldable pub spell : List Stroke → List ℕ
spell [] = []
spell (plain c p ∷ ks) = c ∷ spell ks
spell (doubled ∷ ks) = 1 ∷ 1 ∷ spell ks
spell (stop ∷ ks) = 1 ∷ 3 ∷ spell ks
spell (escaped c p q ∷ ks) = 1 ∷ c ∷ spell ks

-- What they mean: the guest gets the characters, of a doubled Ctrl+A one, and the process the signal.
unfoldable pub meaning : List Stroke → List Action
meaning [] = []
meaning (plain c p ∷ ks) = send c ∷ meaning ks
meaning (doubled ∷ ks) = send 1 ∷ meaning ks
meaning (stop ∷ ks) = interrupt ∷ meaning ks
meaning (escaped c p q ∷ ks) = send 1 ∷ send c ∷ meaning ks

-- The characters one after the other.
keys : Bool → List ℕ → List Action
keys e [] = []
keys e (c ∷ cs) = (key e c).0 ++ keys (key e c).1 cs

keyboard_loop-keys :
    (rounds : List (Bool × Polled)) (ch : ℕ) (e : Bool)
    → keyboard_loop rounds ch e ≡ keys e (typed rounds)
unfolding keyboard_loop timed_getchar typed keys
keyboard_loop-keys [] ch e = refl
keyboard_loop-keys ((true, polled) ∷ rounds) ch e = refl
keyboard_loop-keys ((false, readable (some c)) ∷ rounds) ch e =
    ap (◌++◌ (key e c).0) (keyboard_loop-keys rounds c (key e c).1)
keyboard_loop-keys ((false, readable none) ∷ rounds) ch e = keyboard_loop-keys rounds ch e
keyboard_loop-keys ((false, hung_up) ∷ rounds) ch e = keyboard_loop-keys rounds ch e
keyboard_loop-keys ((false, timed_out) ∷ rounds) ch e = keyboard_loop-keys rounds ch e
keyboard_loop-keys ((false, poll_failed) ∷ rounds) ch e = keyboard_loop-keys rounds ch e

keys-spell : (ks : List Stroke) → keys false (spell ks) ≡ meaning ks
unfolding keys key spell meaning
keys-spell [] = refl
keys-spell (plain c p ∷ ks) = rw (ne→== p) (ap (◌∷◌ (send c)) (keys-spell ks))
keys-spell (doubled ∷ ks) = ap (◌∷◌ (send 1)) (keys-spell ks)
keys-spell (stop ∷ ks) = ap (◌∷◌ interrupt) (keys-spell ks)
keys-spell (escaped c p q ∷ ks) =
    rw (ne→== p, ne→== q) (ap (λ as'. send 1 ∷ send c ∷ as') (keys-spell ks))

-- Whatever the timeouts, errors and empty reads in between, the keyboard's thread does with the
-- characters that arrive before the machine quits, where they spell whole strokes, what the strokes
-- mean, in their order.
pub keyboard_thread_func-meaning :
    (rounds : List (Bool × Polled)) (ks : List Stroke)
    → typed rounds ≡ spell ks
    → keyboard_thread_func rounds ≡ meaning ks
unfolding keyboard_thread_func
keyboard_thread_func-meaning rounds ks e =
    keyboard_loop-keys rounds 0 false ∙ ap (keys false) e ∙ keys-spell ks

-- ===== src/Tests/Keyboard.antt =====
-- Ctrl+A, a timeout, Ctrl+A, an "x", Ctrl+A and Ctrl+C.
use mvvmm.Base.{ℕ, ◌≡◌, ◌≢◌, refl, Bool, true, false, some, List, [], ◌∷◌, arith}
use mvvmm.Cli.Keyboard.{Polled, readable, timed_out, keyboard_thread_func}
use mvvmm.Cli.Keyboard.Escapes.{
  typed, Stroke, plain, doubled, stop, spell, meaning, keyboard_thread_func-meaning,
}

abbrev rounds : List (Bool × Polled)
rounds =
    (false, readable (some 1))
    ∷ (false, timed_out)
    ∷ (false, readable (some 1))
    ∷ (false, readable (some 120))
    ∷ (false, readable (some 1))
    ∷ (false, readable (some 3))
    ∷ (true, readable (some 5))
    ∷ []

letter : (c : ℕ) → c ≡ 120 → c ≢ 1
letter c is e = omega arith

abbrev strokes : List Stroke
strokes = doubled ∷ plain 120 (letter 120 refl) ∷ stop ∷ []

spelled : typed rounds ≡ spell strokes
unfolding typed spell
spelled = refl

keyboard_thread_func-meaning_example : keyboard_thread_func rounds ≡ meaning strokes
keyboard_thread_func-meaning_example = keyboard_thread_func-meaning rounds strokes spelled

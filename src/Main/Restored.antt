-- ===== src/Main/Restored.antt =====
-- The terminal that the program leaves.
use mvvmm.Base.{◌≡◌, refl, false, Bool-cases, inl, inr}
use mvvmm.Main.Terminal.{Terminal, reset_terminal_mode, set_terminal_raw_mode, sigint_handler, exit}

-- A terminal that has not been changed yet, whether or not the program puts it into the raw mode: behind
-- SIGINT as well as behind an ordinary end it has the settings that it began with.
pub set_terminal_raw_mode-restored :
    (t : Terminal)
    → t.g_term_changed ≡ false
    → t.at_exit ≡ false
    → ((sigint_handler (set_terminal_raw_mode t)).0.settings ≡ t.settings)
      × ((exit (set_terminal_raw_mode t)).settings ≡ t.settings)
      × ((sigint_handler t).0.settings ≡ t.settings)
      × ((exit t).settings ≡ t.settings)
unfolding sigint_handler exit set_terminal_raw_mode reset_terminal_mode
set_terminal_raw_mode-restored t unchanged unregistered = elim (Bool-cases t.is_tty) [
  | inl tty ↦ rw (tty, unchanged, unregistered) (refl, refl, refl, refl)
  | inr no_tty ↦ rw (no_tty, unchanged, unregistered) (refl, refl, refl, refl)
]

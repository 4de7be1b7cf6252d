-- ===== src/Main/Terminal.antt =====
-- The terminal and the signal handlers of main.c.
use mvvmm.Base.{
  ℕ, ◌+◌, Bool, true, Option, none, some, List, if◌then◌else◌, bit_and, Outcome, done, crash,
}
use mvvmm.Vmm.{mvvmm_shutdown}

-- `struct termios`: what the code writes, and the others.
pub record Termios : Type 0 where
  pub c_lflag : ℕ
  pub vmin : ℕ
  pub vtime : ℕ
  pub others : List ℕ

-- The terminal of the standard input with its settings, the globals `orig_termios` and
-- `g_term_changed`, and whether `reset_terminal_mode` is registered with `atexit`.
pub record Terminal : Type 0 where
  pub is_tty : Bool
  pub settings : Termios
  pub orig_termios : Termios
  pub g_term_changed : Bool
  pub at_exit : Bool

unfoldable pub reset_terminal_mode : Terminal → Terminal
reset_terminal_mode t = record t { settings = t.orig_termios }

-- `~(ECHO | ICANON | ISIG)` on 32 bits, with the values of Linux: 8, 2 and 1.
abbrev pub raw_mask : ℕ
raw_mask = 0xfffffff4

-- The changes to `raw`.
unfoldable pub raw_of : Termios → Termios
raw_of settings = record settings {
  c_lflag = bit_and settings.c_lflag raw_mask;
  vmin = 1;
  vtime = 0;
}

unfoldable pub set_terminal_raw_mode : Terminal → Terminal
unfolding raw_of
set_terminal_raw_mode t =
    if t.is_tty
    then record t {
      settings = raw_of t.settings;
      orig_termios = t.settings;
      g_term_changed = true;
      at_exit = true;
    }
    else t

-- The terminal that the process leaves, and its status.
unfoldable pub sigint_handler : Terminal → Terminal × ℕ
unfolding reset_terminal_mode
sigint_handler t = (if t.g_term_changed then reset_terminal_mode t else t, 128 + 2)

-- A return from `main` or an `exit`, behind which the registered functions run.
unfoldable pub exit : Terminal → Terminal
unfolding reset_terminal_mode
exit t = if t.at_exit then reset_terminal_mode t else t

-- On `power_cmd` of `g_vm`, which may be NULL: the new one, and the levels of interrupt line 5.
unfoldable pub sigterm_handler : Option ℕ → Outcome (ℕ × List ℕ)
sigterm_handler none = crash
sigterm_handler (some power_cmd) = done (mvvmm_shutdown power_cmd)

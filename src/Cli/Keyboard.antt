-- ===== src/Cli/Keyboard.antt =====
-- `timed_getchar` and `keyboard_thread_func` (main.c): what is typed, Ctrl+A (1) being the escape
-- character.
pub mod Escapes
use mvvmm.Base.{ℕ, Bool, true, false, Option, none, some, List, [], ◌∷◌, ◌++◌, ◌==◌, if◌then◌else◌}

-- One `poll` and, where it says so, one `read`: `ret > 0` with or without POLLIN, 0, or below 0.
pub data Polled : Type 0 where
  -- `read` gives the character, or none.
  readable : Option ℕ → Polled
  hung_up : Polled
  timed_out : Polled
  poll_failed : Polled

-- The result, and `*ch` behind it.
unfoldable pub timed_getchar : Polled → ℕ → ℕ × ℕ
timed_getchar (readable (some c)) ch = (1, c)
timed_getchar _ ch = (0, ch)

-- What the thread does: `write_to_serial`, and SIGINT for the process.
pub data Action : Type 0 where
  send : ℕ → Action
  interrupt : Action

-- The rest of a round, behind `continue`: the actions, in their order, and `escaped`.
unfoldable pub key : Bool → ℕ → List Action × Bool
key escaped ch =
    if escaped
    then if ch == 0x03
      then (interrupt ∷ [], false)
      else if ch == 0x01
      then (send 0x01 ∷ [], false)
      else (send 0x01 ∷ send ch ∷ [], false)
    else if ch == 0x01
    then ([], true)
    else (send ch ∷ [], false)

-- The loop over rounds, each with `vm->quit` as it is read then. `ch` is a character or the 0 it begins
-- with, never EOF.
unfoldable pub keyboard_loop : List (Bool × Polled) → ℕ → Bool → List Action
keyboard_loop [] ch escaped = []
keyboard_loop ((quit, polled) ∷ rounds) ch escaped =
    let (ret, ch') = timed_getchar polled ch in
    let idle = keyboard_loop rounds ch' escaped in
    let (actions, escaped') = key escaped ch' in
    let active = actions ++ keyboard_loop rounds ch' escaped' in
    if quit then [] else if ret == 0 then idle else active

unfoldable pub keyboard_thread_func : List (Bool × Polled) → List Action
keyboard_thread_func rounds = keyboard_loop rounds 0 false

-- ===== src/GuestModule.antt =====
-- The module in the kernel of the guest (guest-module/mvvmm_guest.c), which takes the commands of the
-- host. The calls of that kernel are inputs, for what they return, or outputs.
pub mod Shutdown
use mvvmm.Base.{ℕ, Bool, true, false, List, [], ◌∷◌, ◌==◌, if◌then◌else◌, Code, success, failure}

abbrev pub irq : ℕ
irq = 5

abbrev pub port : ℕ
port = 0x300

abbrev pub cmd_halt : ℕ
cmd_halt = 1

-- `pending_command`, and whether `power_work` is scheduled.
pub record ModuleState : Type 0 where
  pub pending_command : ℕ
  pub scheduled : Bool

-- IRQ_HANDLED or IRQ_NONE, for the value that `inb` gives.
unfoldable pub my_irq_handler : ModuleState → ℕ → Bool × ModuleState
my_irq_handler s val =
    if val == cmd_halt
    then (true, record { pending_command = val; scheduled = true })
    else (false, s)

-- Whether it calls `orderly_poweroff(true)`.
unfoldable pub power_work_func : ModuleState → Bool
power_work_func s = s.pending_command == cmd_halt

-- The access to a port that `outb` makes: the port and the byte. Behind it the function does not return.
unfoldable pub mvvmm_poweroff : ℕ × ℕ
mvvmm_poweroff = (port, cmd_halt)

-- What the module holds in the kernel.
pub data Held : Type 0 where
  region poweroff_handler interrupt : Held

-- `request_region` and `request_irq` may fail.
unfoldable pub mvvmm_init : Bool → Bool → Code × List Held
mvvmm_init has_region has_irq =
    if has_region
    then if has_irq
      then (success, interrupt ∷ poweroff_handler ∷ region ∷ [])
      else (failure, poweroff_handler ∷ [])
    else (failure, [])

-- What is left when the module is unloaded. Another module may have taken the poweroff over: then the
-- handler is not this one's.
unfoldable pub mvvmm_exit : Bool → List Held → List Held
mvvmm_exit ours [] = []
mvvmm_exit ours (poweroff_handler ∷ held) =
    let rest = mvvmm_exit ours held in if ours then rest else poweroff_handler ∷ rest
mvvmm_exit ours (interrupt ∷ held) = mvvmm_exit ours held
mvvmm_exit ours (region ∷ held) = mvvmm_exit ours held

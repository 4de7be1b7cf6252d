-- ===== src/Main/Ends.antt =====
-- How the program ends, once `mvvm_run` has returned.
use mvvmm.Base.{ℕ, Bool, true, false, Option, none, some, List, [], ◌∷◌, Outcome, done, ◌>>=◌}
use mvvmm.Virtio.Device.{Device}
use mvvmm.Virtio.Events.{ended}
use mvvmm.Tap.{Readiness, read_bytes}
use mvvmm.Vmm.Run.{Vm, Exit}
use mvvmm.Vmm.Setup.{Mvvm}
use mvvmm.Vmm.Setup.Destroy.{Threads, Destroyed, mvvm_destroy}
use mvvmm.Disk.Setup as DiskSetup
use mvvmm.Tap.Setup as TapSetup
use mvvmm.Main.{System, run_and_destroy}

-- Packets that come one behind the other, each of at least one byte, without room for them in the queue of
-- the guest.
abbrev pub packets : List (ℕ × List ℕ) → List (Readiness × Bool)
packets [] = []
packets ((b, bytes) ∷ others) = (read_bytes (b ∷ bytes), false) ∷ packets others

-- Threads that have nothing more to do, but for what the interface gives.
abbrev pub receiving : List (Readiness × Bool) → Threads
receiving given = record {
  workers = ended;
  blk_poller = ended;
  packets = given;
  net_poller = ended;
}

module _ {B C : Type 0} (sys : System B C) (fuel chain_fuel : ℕ) (exits : List Exit) where
  abbrev Held : Type 0
  Held = List DiskSetup.Resource × List TapSetup.Resource

  -- The system, with what the interface gives once `quit` is set.
  abbrev pub giving : List (Readiness × Bool) → System B C
  giving given = record sys { keyboard = ended; threads = receiving given }

  abbrev program : List (Readiness × Bool) → Mvvm → Held → Outcome (Option ℕ)
  program given self held = run_and_destroy (giving given) fuel chain_fuel exits self held

  -- What comes behind `mvvm_run`, and behind `mvvm_destroy`.
  abbrev behind_run :
      List (Readiness × Bool) → Mvvm → Held → Outcome (Vm B C × Option ℕ) → Outcome (Option ℕ)
  behind_run given self held o = do
    (vm, ret) ← o
    elim ret [
      | none ↦ done none
      | some value ↦ do
        _ ← mvvm_destroy (receiving given) (record self { quit = true }) held.0 held.1
        done (some 0)
    ]

  abbrev behind_destroy : Outcome Destroyed → Outcome (Option ℕ)
  behind_destroy o = o >>= λ _. done (some 0)

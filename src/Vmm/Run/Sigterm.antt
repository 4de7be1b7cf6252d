-- ===== src/Vmm/Run/Sigterm.antt =====
-- SIGTERM, from its arrival in the loop of `mvvm_run` to the guest's read of the power port.
use mvvmm.Base.{
  ℕ, ◌+◌, ◌≤◌, ◌≡◌, ◌⊎◌, true, false, Option, none, some, List, [], ◌∷◌, length, Outcome, done,
}
use mvvmm.Virtio.Queue.{Recv}
use mvvmm.Vmm.Run.{Exit}
use mvvmm.Vmm.Run.Power.{reads_power}
use mvvmm.Vmm.Run.Rounds.{exited, KvmRound, HostVm, arrive_if, mask_sigterm, run_rounds}

-- None of the rounds has such an exit.
abbrev pub NoReads : List KvmRound → Type 0
NoReads [] = Unit {0}
NoReads (r ∷ rounds) = ((e : Exit) → r.result ≡ exited e → reads_power e ≡ false) × NoReads rounds

module _ {B C : Type 0} where
  -- The handler has run since the line had been set `base` times, and the guest has not read the command.
  abbrev HasRun : ℕ → HostVm B C → Type 0
  HasRun base h = (h.vm.power_cmd ≡ 1) × (base + 2 ≤ length h.levels)

  -- It has run, or the signal waits.
  abbrev Asked : ℕ → HostVm B C → Type 0
  Asked base h = ((h.pending ≡ true) × (base ≤ length h.levels)) ⊎ HasRun base h

  -- The machine behind the guest's read of the command in the round `r`.
  abbrev pub answered : KvmRound → HostVm B C → HostVm B C
  answered r ran =
      arrive_if r.in_exit (record (mask_sigterm ran) { vm = record ran.vm { power_cmd = 0 } })

  module _ (fuel chain_fuel : ℕ) (blk_recv : Recv B) (net_recv : Recv C) where
    abbrev run : List KvmRound → HostVm B C → Outcome (HostVm B C × Option ℕ)
    run rounds h = run_rounds fuel chain_fuel blk_recv net_recv rounds h

    abbrev continue : List KvmRound → HostVm B C × Option ℕ → Outcome (HostVm B C × Option ℕ)
    continue rounds p = elim p.1 [ none ↦ run rounds p.0 | some value ↦ done (p.0, some value) ]

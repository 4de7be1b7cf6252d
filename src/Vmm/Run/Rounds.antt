-- ===== src/Vmm/Run/Rounds.antt =====
-- The loop of `mvvm_run` with the results of `KVM_RUN` (mvvm.c), and with SIGTERM: its handler (main.c) runs
-- in the thread of the loop where the signal is not blocked, and else when it is unblocked.
use mvvmm.Base.{
  ℕ, Bool, true, false, Option, none, some, List, [], ◌∷◌, if◌then◌else◌, Outcome, done, ◌>>=◌,
}
use mvvmm.Virtio.Queue.{Recv}
use mvvmm.Vmm.{mvvmm_shutdown}
use mvvmm.Vmm.Run.{Vm, Exit, go_on, stop, run_exit}

-- An exit, EINTR, or another error.
pub data KvmRun : Type 0 where
  exited : Exit → KvmRun
  interrupted : KvmRun
  failed : KvmRun

-- A round of the loop: what KVM_RUN returns, and whether SIGTERM comes to the thread before that,
-- behind unmask_sigterm, and behind mask_sigterm, while the exit is handled.
pub record KvmRound : Type 0 where
  pub in_kvm_run : Bool
  pub result : KvmRun
  pub in_exit : Bool

-- The machine; whether SIGTERM is blocked in the thread, and whether one waits for that to end; and the
-- levels that interrupt line 5 has been set to, latest first.
pub record HostVm (B C : Type 0) : Type 0 where
  pub vm : Vm B C
  pub blocked : Bool
  pub pending : Bool
  pub levels : List ℕ

unfoldable pub put_levels : List ℕ → List ℕ → List ℕ
put_levels [] so_far = so_far
put_levels (level ∷ levels) so_far = put_levels levels (level ∷ so_far)

module _ {B C : Type 0} where
  -- With `g_vm` set.
  unfoldable pub sigterm_handler : HostVm B C → HostVm B C
  sigterm_handler h =
      let (cmd, levels) = mvvmm_shutdown h.vm.power_cmd in
      record h { vm = record h.vm { power_cmd = cmd }; levels = put_levels levels h.levels }

  -- SIGTERM comes to the thread.
  unfoldable pub arrive : HostVm B C → HostVm B C
  unfolding sigterm_handler
  arrive h = if h.blocked then record h { pending = true } else sigterm_handler h

  unfoldable pub arrive_if : Bool → HostVm B C → HostVm B C
  unfolding arrive
  arrive_if b h = if b then arrive h else h

  unfoldable pub mask_sigterm : HostVm B C → HostVm B C
  mask_sigterm h = record h { blocked = true }

  -- A signal that waits is delivered.
  unfoldable pub unmask_sigterm : HostVm B C → HostVm B C
  unfolding sigterm_handler
  unmask_sigterm h =
      if h.pending
      then sigterm_handler (record h { blocked = false; pending = false })
      else record h { blocked = false }

  -- The machine when KVM_RUN has returned.
  unfoldable pub kvm_run : KvmRound → HostVm B C → HostVm B C
  unfolding arrive_if unmask_sigterm
  kvm_run r h = arrive_if r.in_kvm_run (unmask_sigterm h)

module _ {B C : Type 0} (fuel chain_fuel : ℕ) (blk_recv : Recv B) (net_recv : Recv C) where
  -- A round behind KVM_RUN: the machine and, if the loop ends there, the value that `mvvm_run` returns.
  -- Behind a failure `ret` is 0: every exit before that went on, and has left it so.
  unfoldable pub handle : KvmRun → Bool → HostVm B C → Outcome (HostVm B C × Option ℕ)
  unfolding mask_sigterm arrive_if
  handle interrupted in_exit h = done (h, none)
  handle failed in_exit h = done (h, some 0)
  handle (exited e) in_exit h = run_exit fuel chain_fuel blk_recv net_recv h.vm e >>= elim [
    | go_on vm value ↦ done (arrive_if in_exit (record (mask_sigterm h) { vm = vm }), none)
    | stop vm ret ↦ done (arrive_if in_exit (record (mask_sigterm h) { vm = vm }), some ret)
  ]

  unfoldable pub run_rounds : List KvmRound → HostVm B C → Outcome (HostVm B C × Option ℕ)
  unfolding kvm_run handle
  run_rounds [] h = done (h, none)
  run_rounds (r ∷ rounds) h = do
    (h', ret) ← handle r.result r.in_exit (kvm_run r h)
    elim ret [ none ↦ run_rounds rounds h' | some value ↦ done (h', some value) ]

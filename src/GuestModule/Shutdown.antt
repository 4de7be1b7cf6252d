-- ===== src/GuestModule/Shutdown.antt =====
-- A shutdown, from the signal on the host to the end of `mvvm_run`.
use mvvmm.Base.{
  ℕ, ◌≡◌, refl, ap, sym, ◌∙◌, true, false, Option, none, some, List, [], ◌∷◌, ◌++◌, Outcome, done,
  crash, aborted, out_of_fuel, ◌>>=◌, done_inj, none-some,
}
use mvvmm.Virtio.Queue.{Recv}
use mvvmm.Vmm.{mvvmm_shutdown, handle_power}
use mvvmm.Vmm.Run.{Vm, Exit, io, Next, go_on, stop, power_exit, io_exit, run_exit, mvvm_run}
use mvvmm.GuestModule.{ModuleState, port, my_irq_handler, power_work_func, mvvmm_poweroff}

module _ {B C : Type 0} where
  -- The virtual machine behind the signal handler of the host.
  abbrev pub signalled : Vm B C → Vm B C
  signalled vm = record vm { power_cmd = (mvvmm_shutdown vm.power_cmd).0 }

  -- What the guest reads from the port, and the machine then.
  reads_command :
      (vm : Vm B C) (v : ℕ)
      → io_exit vm port false v ≡ go_on (record vm { power_cmd = 0 }) vm.power_cmd
  unfolding io_exit power_exit handle_power
  reads_command vm v = refl

  poweroff_stops : (vm : Vm B C) → io_exit vm mvvmm_poweroff.0 true mvvmm_poweroff.1 ≡ stop vm 1
  unfolding io_exit power_exit handle_power mvvmm_poweroff
  poweroff_stops vm = refl

  module _ (fuel chain_fuel : ℕ) (blk_recv : Recv B) (net_recv : Recv C) where
    abbrev run : List Exit → Vm B C → Outcome (Vm B C × Option ℕ)
    run es vm = mvvm_run fuel chain_fuel blk_recv net_recv es vm

    -- The rest of the loop behind a round.
    abbrev continue : List Exit → Outcome (Next B C) → Outcome (Vm B C × Option ℕ)
    continue es o =
        o >>= elim [ go_on vm' value ↦ run es vm' | stop vm' ret ↦ done (vm', some ret) ]

    continues :
        (es fs : List Exit) (vm' : Vm B C) (o : Outcome (Next B C))
        → ((vm : Vm B C) → run es vm ≡ done (vm', none) → run (es ++ fs) vm ≡ run fs vm')
        → continue es o ≡ done (vm', none)
        → continue (es ++ fs) o ≡ run fs vm'
    continues es fs vm' (done (go_on vm value)) rest e = rest vm e
    continues es fs vm' (done (stop vm ret)) rest e =
        absurd (none-some (sym (ap (λ r. r.1) (done_inj e))))
    continues es fs vm' crash rest e = cc
    continues es fs vm' aborted rest e = cc
    continues es fs vm' out_of_fuel rest e = cc

    run-append :
        (es fs : List Exit) (vm vm' : Vm B C)
        → run es vm ≡ done (vm', none)
        → run (es ++ fs) vm ≡ run fs vm'
    unfolding mvvm_run
    run-append [] fs vm vm' e = ap (run fs) (ap (λ r. r.0) (done_inj e))
    run-append (x ∷ es) fs vm vm' e =
        continues es fs vm' (run_exit fuel chain_fuel blk_recv net_recv vm x)
          (λ vm1 e1. run-append es fs vm1 vm' e1) e

    stops :
        (fs : List Exit) (vm : Vm B C)
        → run (io mvvmm_poweroff.0 true mvvmm_poweroff.1 ∷ fs) vm ≡ done (vm, some 1)
    unfolding mvvm_run run_exit
    stops fs vm = rw (poweroff_stops vm) refl

    read_goes_on :
        (es : List Exit) (vm : Vm B C) (v : ℕ)
        → run (io port false v ∷ es) vm ≡ run es (record vm { power_cmd = 0 })
    unfolding mvvm_run run_exit
    read_goes_on es vm v = rw (reads_command vm v) refl

    -- A shutdown of the machine. Once the host has been signalled, the guest's interrupt handler reads the
    -- command from the port, and schedules the work that asks its kernel for the orderly poweroff; a
    -- second read gives 0, on which the handler leaves the module's state alone. And whatever
    -- exits of the guest, among which the machine does not stop, lie between the handler's read and
    -- the poweroff at the end of the orderly one, `mvvm_run` then returns 1, whatever would follow.
    pub mvvmm_shutdown-stops :
        (vm vm' : Vm B C) (s : ModuleState) (v : ℕ) (between behind : List Exit)
        → run between (record vm { power_cmd = 0 }) ≡ done (vm', none)
        → (io_exit (signalled vm) port false v ≡ go_on (record vm { power_cmd = 0 }) 1)
          × (power_work_func (my_irq_handler s 1).1 ≡ true)
          × (io_exit (record vm { power_cmd = 0 }) port false v
              ≡ go_on (record vm { power_cmd = 0 }) 0)
          × (my_irq_handler s 0 ≡ (false, s))
          × (run
                (io port false v ∷ (between ++ io mvvmm_poweroff.0 true mvvmm_poweroff.1 ∷ behind))
                (signalled vm)
              ≡ done (vm', some 1))
    unfolding my_irq_handler power_work_func mvvmm_shutdown
    mvvmm_shutdown-stops vm vm' s v between behind e = (
      reads_command (record vm { power_cmd = 1 }) v,
      refl,
      reads_command (record vm { power_cmd = 0 }) v,
      refl,
      read_goes_on (between ++ io mvvmm_poweroff.0 true mvvmm_poweroff.1 ∷ behind)
            (record vm { power_cmd = 1 }) v
          ∙ run-append between (io mvvmm_poweroff.0 true mvvmm_poweroff.1 ∷ behind)
              (record vm { power_cmd = 0 }) vm' e
          ∙ stops behind vm',
    )

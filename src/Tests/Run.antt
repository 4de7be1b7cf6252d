-- ===== src/Tests/Run.antt =====
-- A run of the virtual machine.
use mvvmm.Base.{Outcome, false, ℕ, Option, none, some, List, [], ◌∷◌, true, Ensures}
use mvvmm.Virtio.Block.{virtio_block_recv_request}
use mvvmm.Virtio.Block.Validity.{virtio_block_recv_request-ServesValid}
use mvvmm.Virtio.Net.{virtio_net_recv_request}
use mvvmm.Virtio.Net.Validity.{virtio_net_recv_request-ServesValid}
use mvvmm.Serial.{serial_init}
use mvvmm.Vmm.Run.{Vm, Exit, io, mmio, mvvm_run}
use mvvmm.Vmm.Run.Validity.{IsValidVm, mvvm_run-IsValidVm}
use mvvmm.Vmm.Run.Rounds.{exited, interrupted, KvmRound, HostVm, run_rounds}
use mvvmm.Tests.Fixture.{mem, device_from}
use mvvmm.Tests.Queue.{disk, count_bytes}
use mvvmm.Tests.Mmio.{machine-IsValid}

abbrev pub vm : Vm ℕ ℕ
vm = record {
  mem = mem;
  serial = serial_init;
  power_cmd = 0;
  blk = some (device_from 0);
  net = none;
  irqs = [];
  disk = 0;
  tap = 0;
}

-- The guest prints a letter, notifies queue 0 of the disk, resets it, and powers off.
abbrev exits : List Exit
exits =
    io 0x3f8 true 0x41
    ∷ mmio 0x10000000050 true 0 4
    ∷ mmio 0x10000000070 true 0 4
    ∷ io 0x300 true 1
    ∷ []

mvvm_run-IsValidVm_example :
    Ensures
      (λ (r : Vm ℕ ℕ × Option ℕ). IsValidVm r.0)
      (mvvm_run 2 3 (virtio_block_recv_request disk) (virtio_net_recv_request count_bytes) exits vm)
mvvm_run-IsValidVm_example =
    mvvm_run-IsValidVm 2 3 (virtio_block_recv_request disk) (virtio_net_recv_request count_bytes)
      (virtio_block_recv_request-ServesValid disk) (virtio_net_recv_request-ServesValid count_bytes)
      exits vm (record { blk = machine-IsValid; net = tt })

-- The thread as `mvvm_run` starts: SIGTERM is blocked.
abbrev host : HostVm ℕ ℕ
host = record { vm = vm; blocked = true; pending = false; levels = [] }

-- An interrupted call, and an access to a place without a device during which SIGTERM comes again.
abbrev before : List KvmRound
before =
    record { in_kvm_run = false; result = interrupted; in_exit = false }
    ∷ record { in_kvm_run = false; result = exited (mmio 0 true 0 4); in_exit = true }
    ∷ []

abbrev reading : KvmRound
reading = record { in_kvm_run = false; result = exited (io 0x300 false 0); in_exit = false }

-- The handler has run once, and the second signal waits.
abbrev waiting : HostVm ℕ ℕ
waiting = record {
  vm = record vm { power_cmd = 1 };
  blocked = true;
  pending = true;
  levels = 0 ∷ 1 ∷ [];
}

abbrev run : List KvmRound → HostVm ℕ ℕ → Outcome (HostVm ℕ ℕ × Option ℕ)
run rounds h =
    run_rounds 2 3 (virtio_block_recv_request disk) (virtio_net_recv_request count_bytes) rounds h

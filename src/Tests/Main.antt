-- ===== src/Tests/Main.antt =====
-- Runs of the program.
use mvvmm.Base.{
  ℕ, ◌+◌, ◌<◌, ◌≡◌, refl, true, none, some, List, [], ◌∷◌, ◌++◌, length, length-replicate, arith,
}
use mvvmm.Guest.{GuestMem, bytes_at}
use mvvmm.Virtio.Device.{Device}
use mvvmm.Virtio.Block.{virtio_block_recv_request}
use mvvmm.Virtio.Net.{virtio_net_recv_request}
use mvvmm.Virtio.Events.{
  close, taken, refused, InitCalls, ended, virtio_block_init, virtio_net_init, init_events,
}
use mvvmm.Cli.Options.{Str, CmdOpts, opts}
use mvvmm.Vmm.{memory_regions, initrd_addr}
use mvvmm.Vmm.Load.{cmd_line_addr}
use mvvmm.Vmm.Layout.{Backed}
use mvvmm.Vmm.Run.{Exit, io}
use mvvmm.Vmm.Setup.{Mvvm}
use mvvmm.Vmm.Setup.Cpu.{entry_regs}
use mvvmm.Vmm.Setup.Plan.{willing}
use mvvmm.Vmm.Setup.Devices.{made_vm, disk_held}
use mvvmm.Disk.Setup.{made_device, block_device_of}
use mvvmm.Disk.Setup as DiskSetup
use mvvmm.Vmm.Setup.Init.{fixed_ifname}
use mvvmm.Tap.Setup.{mvvm_init_virtio_net, start_net, if_name, net_device_of, net_fds_of}
use mvvmm.Tap.Setup.Branches.{outcome_of, interface_name, mvvm_init_virtio_net-outcome}
use mvvmm.Tap.Setup as TapSetup
use mvvmm.Main.{System, FileCalls, map_file, zero_vm, run_and_destroy, main}
use mvvmm.Main.Boot.{main-boots}
use mvvmm.Main.Ends.{receiving}
use mvvmm.Tests.Fixture.{device_from}
use mvvmm.Tests.Queue.{disk, count_bytes}
use mvvmm.Tests.Setup.{fd, regs, sregs}
use mvvmm.Tests.Boot.{
  format, ram, image, length-image, accepted, few_sectors, params, kernel, cmdline,
}

abbrev events : InitCalls
events = record { irq = taken 7; queue0 = taken 8; queue1 = taken 9; thread = true }

abbrev disk_calls : DiskSetup.Calls
disk_calls = record {
  malloc_ctx = true;
  open_file = true;
  fstat = some 4096;
  new_thread_pool = true;
  malloc_bs = true;
  events = events;
  open_fds = [];
}

abbrev tap_calls : TapSetup.Calls
tap_calls = record {
  malloc_ctx = true;
  open_tun = true;
  tunsetiff = λ name. some name;
  malloc_net = true;
  events = events;
  open_fds = [];
  pthread_create = true;
}

-- The kernel, and under the empty path the initial RAM disk.
files : Str → FileCalls
files [] = record { opened = true; stated = true; mapped = true; bytes = 1 ∷ 2 ∷ 3 ∷ [] }
files (c ∷ cs) = record { opened = true; stated = true; mapped = true; bytes = image }

abbrev sys : System ℕ ℕ
sys = record {
  kvm = willing fd regs sregs (1 ∷ 2 ∷ []);
  disk_calls = λ path. disk_calls;
  tap_calls = tap_calls;
  files = files;
  format = format;
  pthread_create = true;
  keyboard = ended;
  threads = receiving [];
  disk = 0;
  tap = 0;
  blk_recv = virtio_block_recv_request disk;
  net_recv = virtio_net_recv_request count_bytes;
}

abbrev options : CmdOpts
options = record {
  kernel_path = some (107 ∷ []);
  initrd_path = some [];
  disk_path = some (100 ∷ []);
  memory_size = 0x10000000;
  kernel_cmdline = 100 ∷ [];
  tap_ifname = none;
}

-- The guest powers off.
abbrev exits : List Exit
exits = io 0x300 true 1 ∷ []

dev : Device
unfolding made_device block_device_of virtio_block_init init_events
dev = elim (made_device disk_calls) [ none ↦ device_from 0 | some d ↦ d ]

dev-made : made_device disk_calls ≡ some dev
unfolding dev made_device block_device_of virtio_block_init init_events
dev-made = refl

kernel_file : (map_file (files (107 ∷ []))).0 ≡ some image
unfolding map_file files
kernel_file = refl

initrd_file : (map_file (files [])).0 ≡ some (1 ∷ 2 ∷ 3 ∷ [])
unfolding map_file files
initrd_file = refl

main-boots_example :
    (m : GuestMem) × (main sys 2 3 exits (opts options)
      ≡ run_and_destroy sys 2 3 exits
          (record (made_vm fd regs sregs
            (1 ∷ 2 ∷ [])
            0x10000000
            (some disk_calls)
            none
            (some dev)
            none
            zero_vm) { mem_map = some m })
          (disk_held (some dev), []))
    × (bytes_at m.byte (entry_regs regs).rip (length kernel) ≡ kernel)
    × (bytes_at m.byte (entry_regs regs).rsi (length (format.boot_params params))
        ≡ format.boot_params params)
    × (bytes_at m.byte cmd_line_addr (length (cmdline ++ 0 ∷ [])) ≡ cmdline ++ 0 ∷ [])
    × (bytes_at m.byte initrd_addr 3 ≡ 1 ∷ 2 ∷ 3 ∷ [])
    × ((p : ℕ)
        → p < length kernel
        → Backed
            ((entry_regs regs).rip + p)
            ((entry_regs regs).rip + p)
            (memory_regions 0x10000000))
main-boots_example =
    main-boots sys 2 3 exits fd regs sregs (1 ∷ 2 ∷ []) options (107 ∷ []) [] image (1 ∷ 2 ∷ 3 ∷ [])
      cmdline (some dev) none refl refl refl kernel_file initrd_file dev-made tt
      (λ p. length-replicate {A = ℕ} 4096 0) few_sectors (omega (arith, length-image))
      (omega (arith, length-image)) (omega arith) accepted refl

-- A machine with a disk and an interface.
abbrev machine : Mvvm
machine = record zero_vm {
  mem_map = some ram;
  blk = some (device_from 0);
  net = some (device_from 0);
}

abbrev two_packets : List (ℕ × List ℕ)
two_packets = (1, 2 ∷ 3 ∷ []) ∷ (4, []) ∷ []

-- KVM takes the descriptor of the interrupt, and refuses that of queue 1.
abbrev no_queue1 : TapSetup.Calls
no_queue1 = record tap_calls { events = record events { queue1 = refused 9 } }

mvvm_init_virtio_net-outcome_example :
    mvvm_init_virtio_net no_queue1 fixed_ifname none
    ≡ outcome_of no_queue1 none (interface_name no_queue1 fixed_ifname) (net_device_of no_queue1)
mvvm_init_virtio_net-outcome_example = mvvm_init_virtio_net-outcome no_queue1 fixed_ifname none tt

-- The descriptor of the interrupt is left.
no_queue1-left : (mvvm_init_virtio_net no_queue1 fixed_ifname none).open_fds ≡ 7 ∷ []
unfolding mvvm_init_virtio_net start_net if_name net_device_of net_fds_of virtio_net_init
    init_events close
no_queue1-left = refl

-- The same for the disk.
abbrev no_irq : DiskSetup.Calls
no_irq = record disk_calls { events = record events { irq = refused 7 } }

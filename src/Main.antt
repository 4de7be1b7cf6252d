-- ===== src/Main.antt =====
-- `main` (main.c): the parts of the program one after the other. What the system gives to each of them is
-- an input.
pub mod Terminal
pub mod Boot
pub mod Ends
pub mod Restored
use mvvmm.Base.{
  ℕ, Bool, true, false, Option, none, some, List, [], ◌∷◌, if◌then◌else◌, Outcome, done, crash,
  ◌>>=◌, Code, success, failure,
}
use mvvmm.Serial.{serial_init}
use mvvmm.Virtio.Device.{Device}
use mvvmm.Virtio.Queue.{Recv}
use mvvmm.Cli.Options.{Str, CmdOpts, Parsed, opts, exit_success, exit_failure}
use mvvmm.Vmm.{mvvmm_shutdown, InitrdPath, no_path, unreadable, file}
use mvvmm.Vmm.Load.{BootFormat, mvvm_load_kernel}
use mvvmm.Vmm.Run.{Vm, Exit, mvvm_run}
use mvvmm.Vmm.Setup.{Kvm, Mvvm, Progress, Result, ok, error, crashed}
use mvvmm.Vmm.Setup.Init.{mvvm_init}
use mvvmm.Virtio.Events.{Ending, join}
use mvvmm.Vmm.Setup.Destroy.{Threads, mvvm_destroy}
use mvvmm.Disk.Setup as DiskSetup
use mvvmm.Tap.Setup as TapSetup

-- `map_file`: the results of `open`, `fstat` and `mmap`, with the bytes of the file.
pub record FileCalls : Type 0 where
  pub opened : Bool
  pub stated : Bool
  pub mapped : Bool
  pub bytes : List ℕ

-- The mapping, or `none` for the -1, and whether the descriptor stays open.
unfoldable pub map_file : FileCalls → Option (List ℕ) × Bool
map_file c =
    if c.opened
    then if c.stated then if c.mapped then (some c.bytes, false) else (none, true) else (none, true)
    else (none, false)

-- The initial RAM disk of a path that may be NULL: load_initrd makes the three calls itself.
unfoldable pub initrd_of : (Str → FileCalls) → Option Str → InitrdPath
initrd_of files none = no_path
initrd_of files (some path) = elim ((map_file (files path)).0) [
  | none ↦ unreadable
  | some bytes ↦ file bytes
]

-- The system under the program, with what comes in the end of the thread of the keyboard and of those of
-- the devices, and what serves the two devices.
pub record System (B C : Type 0) : Type 0 where
  pub kvm : Kvm
  pub disk_calls : Str → DiskSetup.Calls
  pub tap_calls : TapSetup.Calls
  pub files : Str → FileCalls
  pub format : BootFormat
  pub pthread_create : Bool
  pub keyboard : Ending
  pub threads : Threads
  pub disk : B
  pub tap : C
  pub blk_recv : Recv B
  pub net_recv : Recv C

-- `(struct mvvm){0}`
abbrev pub zero_vm : Mvvm
zero_vm = record {
  kvm_fd = some 0;
  vm_fd = some 0;
  cpu_fd = some 0;
  mem_map = none;
  serial = record { regs = 0 ∷ 0 ∷ 0 ∷ 0 ∷ 0 ∷ 0 ∷ 0 ∷ 0 ∷ []; dl = 0 ∷ 0 ∷ []; events = [] };
  blk = none;
  net = none;
  quit = false;
  power_cmd = 0;
}

abbrev pub start : Progress
start = record { self = zero_vm; asked = []; cpuids = 0 }

abbrev pub present : Option Device → Bool
present none = false
present (some dev) = true

abbrev pub on_path : {A : Type 0} → (Str → A) → Option Str → Option A
on_path f none = none
on_path f (some path) = some (f path)

-- The status of the process, or `none` while the virtual machine runs. -1 is the status 255.
abbrev pub minus_one : ℕ
minus_one = 255

module _ {B C : Type 0} (sys : System B C) (fuel chain_fuel : ℕ) (exits : List Exit) where
  -- The machine that `mvvm_run` starts with.
  abbrev pub vm_of : Mvvm → Vm B C
  vm_of self = record {
    mem = elim self.mem_map [ none ↦ record { size = 0; byte = λ p. 0 } | some m ↦ m ];
    serial = self.serial;
    power_cmd = self.power_cmd;
    blk = self.blk;
    net = self.net;
    irqs = [];
    disk = sys.disk;
    tap = sys.tap;
  }

  abbrev Held : Type 0
  Held = List DiskSetup.Resource × List TapSetup.Resource

  -- `mvvm_run`, whose result is not looked at, `quit`, the end of the keyboard's thread, and the
  -- destruction.
  unfoldable pub run_and_destroy : Mvvm → Held → Outcome (Option ℕ)
  unfolding join
  run_and_destroy self held = do
    (vm, ret) ← mvvm_run fuel chain_fuel sys.blk_recv sys.net_recv exits (vm_of self)
    elim ret [
      | none ↦ done none
      | some value ↦ join sys.keyboard (do
        _ ← mvvm_destroy sys.threads (record self { quit = true }) held.0 held.1
        done (some 0))
    ]

  unfoldable pub load_and_run : CmdOpts → Str → Mvvm → Held → Outcome (Option ℕ)
  unfolding run_and_destroy map_file initrd_of
  load_and_run o kernel_path self held = elim self.mem_map [
    | none ↦ crash
    | some m ↦ do
      (code, m') ←
          mvvm_load_kernel sys.format (present self.blk) (present self.net) m
            (map_file (sys.files kernel_path)).0 (initrd_of sys.files o.initrd_path)
            o.kernel_cmdline
      elim code [
        | failure ↦ done (some minus_one)
        | success ↦
            let running = run_and_destroy (record self { mem_map = some m' }) held in
            if sys.pthread_create then running else done (some 1)
      ]
  ]

  unfoldable pub main : Parsed → Outcome (Option ℕ)
  unfolding load_and_run
  main exit_success = done (some 0)
  main exit_failure = done (some 1)
  main (opts o) = elim o.kernel_path [
    | none ↦ done (some 1)
    | some kernel_path ↦
        let (result, p) =
          mvvm_init sys.kvm o.memory_size (on_path sys.disk_calls o.disk_path)
            (on_path (λ name. sys.tap_calls) o.tap_ifname) start in
        elim result [
          | error ↦ done (some minus_one)
          | crashed ↦ crash
          | ok held ↦ load_and_run o kernel_path p.self held
        ]
  ]

-- ===== src/Vmm/Setup/Devices.antt =====
-- `mvvm_init` as a whole, where the calls of the system succeed.
use mvvmm.Base.{ℕ, ◌≡◌, refl, ap, ◌∙◌, true, false, Option, none, some, List, [], ◌∷◌}
use mvvmm.Serial.{serial_init}
use mvvmm.Virtio.Device.{Device}
use mvvmm.Vmm.Setup.{Regs, Sregs, Call, Mvvm, Progress, Action, ok, ◌>>=◌, pure, bind-ok}
use mvvmm.Vmm.Setup.Init.{fixed_ifname, fresh_memory, init_machine, init_disk, init_tap, mvvm_init}
use mvvmm.Vmm.Setup.Plan.{willing, kvm_fd_of, vm_fd_of, cpu_fd_of, plan, init_machine-plan}
use mvvmm.Disk.Setup.{made_device, mvvm_init_virtio_blk, mvvm_init_virtio_blk-made}
use mvvmm.Tap.Setup.{net_device_of}
use mvvmm.Tap.Setup.Branches.{interface_name, mvvm_init_virtio_net-made}
use mvvmm.Disk.Setup as DiskSetup
use mvvmm.Tap.Setup as TapSetup

-- The device that the calls of a set-up give; there is none without a path.
abbrev pub DiskMade : Option DiskSetup.Calls → Option Device → Type 0
DiskMade none none = Unit {0}
DiskMade none (some dev) = ⊥
DiskMade (some c) none = ⊥
DiskMade (some c) (some dev) = made_device c ≡ some dev

abbrev pub TapMade : Option TapSetup.Calls → Option Device → Type 0
TapMade none none = Unit {0}
TapMade none (some dev) = ⊥
TapMade (some c) none = ⊥
TapMade (some c) (some dev) =
    ((name : List ℕ) × (interface_name c fixed_ifname ≡ some name))
    × (net_device_of c ≡ some dev)
    × (c.pthread_create ≡ true)

-- What the process holds for them.
abbrev pub disk_held : Option Device → List DiskSetup.Resource
disk_held none = []
disk_held (some dev) =
    DiskSetup.context ∷ DiskSetup.descriptor ∷ DiskSetup.pool ∷ DiskSetup.device_struct
    ∷ DiskSetup.virtio ∷ []

abbrev pub tap_held : Option Device → List TapSetup.Resource
tap_held none = []
tap_held (some dev) =
    TapSetup.context ∷ TapSetup.descriptor ∷ TapSetup.ether_device ∷ TapSetup.virtio
    ∷ TapSetup.thread ∷ []

init_disk-made :
    (disk : Option DiskSetup.Calls) (dev : Option Device) (p : Progress)
    → DiskMade disk dev
    → p.self.blk ≡ none
    → init_disk disk p ≡ (ok (disk_held dev), record p { self = record p.self { blk = dev } })
unfolding init_disk
init_disk-made none none p made e =
    ap (λ b. (ok [], record p { self = record p.self { blk = b } })) e
init_disk-made none (some dev) p made e = absurd made
init_disk-made (some c) none p made e = absurd made
init_disk-made (some c) (some dev) p made e = rw (mvvm_init_virtio_blk-made c p.self.blk made) refl

init_tap-made :
    (tap : Option TapSetup.Calls) (dev : Option Device) (p : Progress)
    → TapMade tap dev
    → p.self.net ≡ none
    → init_tap tap p ≡ (ok (tap_held dev), record p { self = record p.self { net = dev } })
unfolding init_tap
init_tap-made none none p made e =
    ap (λ b. (ok [], record p { self = record p.self { net = b } })) e
init_tap-made none (some dev) p made e = absurd made
init_tap-made (some c) none p made e = absurd made
init_tap-made (some c) (some dev) p ((name, e), f, g) _ =
    rw (mvvm_init_virtio_net-made c fixed_ifname p.self.net e f g) refl

module _ (fd : Call → ℕ) (regs : Regs) (sregs : Sregs) (cpuid : List ℕ) (mem_size : ℕ)
    (disk : Option DiskSetup.Calls) (tap : Option TapSetup.Calls) (blk net : Option Device) where
  -- The struct with everything made.
  abbrev pub made_vm : Mvvm → Mvvm
  made_vm self = record self {
    kvm_fd = some (kvm_fd_of fd);
    vm_fd = some (vm_fd_of fd);
    cpu_fd = some (cpu_fd_of fd);
    mem_map = some (fresh_memory mem_size);
    serial = serial_init;
    blk = blk;
    net = net;
    quit = false;
  }

  abbrev Held : Type 0
  Held = List DiskSetup.Resource × List TapSetup.Resource

  abbrev add_tap : List DiskSetup.Resource → Action Held
  add_tap held = init_tap tap >>= λ th. pure (held, th)

  abbrev add_disk : Action Held
  add_disk = init_disk disk >>= add_tap

  -- Where every call of the system succeeds and each device that is asked for is made, `mvvm_init`
  -- succeeds on a struct without devices, and the struct has the devices then.
  pub mvvm_init-made :
      (p : Progress)
      → DiskMade disk blk
      → TapMade tap net
      → p.self.blk ≡ none
      → p.self.net ≡ none
      → mvvm_init (willing fd regs sregs cpuid) mem_size disk tap p ≡ (
        ok (disk_held blk, tap_held net),
        record p { self = made_vm p.self; asked = plan fd regs sregs cpuid mem_size p.asked },
      )
  unfolding mvvm_init
  mvvm_init-made p disk_made tap_made no_blk no_net =
      let host = willing fd regs sregs cpuid in
      let asked = plan fd regs sregs cpuid mem_size p.asked in
      let p1 : Progress = record p {
        self = record (made_vm p.self) { blk = p.self.blk; net = p.self.net };
        asked = asked;
      } in
      let p2 : Progress = record p {
        self = record (made_vm p.self) { net = p.self.net };
        asked = asked;
      } in
      bind-ok (init_machine host mem_size) (λ _. add_disk) {p = p} {p' = p1}
        (init_machine-plan fd regs sregs cpuid mem_size p)
      ∙ bind-ok (init_disk disk) add_tap {p = p1} {p' = p2}
          (init_disk-made disk blk p1 disk_made no_blk)
      ∙ bind-ok (init_tap tap) (λ th. pure (disk_held blk, th)) {p = p2}
          (init_tap-made tap net p2 tap_made no_net)

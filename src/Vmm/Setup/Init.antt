-- ===== src/Vmm/Setup/Init.antt =====
-- `mvvm_init`.
use mvvmm.Base.{
  ℕ, ◌+◌, ◌-◌, ◌*◌, false, Option, none, some, List, [], ◌∷◌, if◌then◌else◌, ltb, leb, Code,
  success, failure,
}
use mvvmm.Guest.{GuestMem}
use mvvmm.Serial.{serial_init}
use mvvmm.Vmm.{reserved_addr, reserved_size, region}
use mvvmm.Vmm.Setup.{
  Call, open_kvm, create_vm, create_irqchip, create_pit2, set_tss_addr, set_identity_map_addr,
  malloc_mem_map, mmap_memory, set_user_memory_region, create_vcpu, Kvm, Mvvm, ok, error, Action,
  ◌>>=◌, ◌>>◌, pure, on_self, or_error, ask, required,
}
use mvvmm.Vmm.Setup.Cpu.{init_cpu}
use mvvmm.Disk.Setup.{mvvm_init_virtio_blk}
use mvvmm.Tap.Setup.{mvvm_init_virtio_net}
use mvvmm.Disk.Setup as DiskSetup
use mvvmm.Tap.Setup as TapSetup

-- `tss_addr` and `identity_map_addr`.
abbrev pub tss_addr : ℕ
tss_addr = reserved_addr

abbrev pub identity_map_addr : ℕ
identity_map_addr = reserved_addr + 3 * 4096

-- A call for a descriptor, which is stored whether it is negative or not.
unfoldable pub open_into : Kvm → Call → (Option ℕ → Mvvm → Mvvm) → Action ℕ
unfolding ask
open_into kvm c store = do fd ← ask kvm c; on_self (store fd); or_error fd

abbrev pub with_kvm_fd : Option ℕ → Mvvm → Mvvm
with_kvm_fd fd self = record self { kvm_fd = fd }

abbrev pub with_vm_fd : Option ℕ → Mvvm → Mvvm
with_vm_fd fd self = record self { vm_fd = fd }

abbrev pub with_cpu_fd : Option ℕ → Mvvm → Mvvm
with_cpu_fd fd self = record self { cpu_fd = fd }

-- KVM and the virtual machine without memory: their descriptors.
unfoldable pub open_vm : Kvm → Action (ℕ × ℕ)
unfolding open_into required
open_vm kvm = do
  on_self λ self. record self { quit = false }
  kvm_fd ← open_into kvm open_kvm with_kvm_fd
  vm_fd ← open_into kvm (create_vm kvm_fd) with_vm_fd
  required kvm (create_irqchip vm_fd)
  required kvm (create_pit2 vm_fd)
  required kvm (set_tss_addr vm_fd tss_addr)
  required kvm (set_identity_map_addr vm_fd identity_map_addr)
  pure (kvm_fd, vm_fd)

-- The mapping is anonymous: it reads as zeros.
abbrev pub fresh_memory : ℕ → GuestMem
fresh_memory mem_size = record { size = mem_size; byte = λ p. 0 }

-- The regions, each in its slot.
unfoldable pub register_memory : Kvm → ℕ → ℕ → Action Unit
unfolding required
register_memory kvm vm_fd mem_size =
    if leb mem_size reserved_addr
    then (do required kvm (set_user_memory_region vm_fd 0 (region 0 mem_size 0)); pure tt)
    else (do
      required kvm (set_user_memory_region vm_fd 0 (region 0 reserved_addr 0))
      let region1_start = reserved_addr + reserved_size
      if ltb region1_start mem_size
          then (do
            required kvm (
                set_user_memory_region vm_fd 1
                  (region region1_start (mem_size - region1_start) region1_start))
            pure tt)
          else pure tt)

unfoldable pub init_memory : Kvm → ℕ → ℕ → Action Unit
unfolding required register_memory
init_memory kvm vm_fd mem_size = do
  required kvm malloc_mem_map
  required kvm (mmap_memory mem_size)
  on_self λ self. record self { mem_map = some (fresh_memory mem_size) }
  register_memory kvm vm_fd mem_size

-- Up to the serial port.
unfoldable pub init_machine : Kvm → ℕ → Action Unit
unfolding open_vm init_memory open_into init_cpu
init_machine kvm mem_size = do
  (kvm_fd, vm_fd) ← open_vm kvm
  init_memory kvm vm_fd mem_size
  cpu_fd ← open_into kvm (create_vcpu vm_fd) with_cpu_fd
  init_cpu kvm kvm_fd cpu_fd
  on_self λ self. record self { serial = serial_init }

abbrev pub or_failed : Code → Action Unit
or_failed success p = (ok tt, p)
or_failed failure p = (error, p)

-- The disk and the interface, with what their set-ups are given by the system; a path or a name that is
-- NULL is `none`.
unfoldable pub init_disk : Option (DiskSetup.Calls) → Action (List DiskSetup.Resource)
init_disk none p = (ok [], p)
init_disk (some c) p =
    let (code, blk, held, open_fds) = mvvm_init_virtio_blk c p.self.blk in
    (or_failed code >> pure held) (record p { self = record p.self { blk = blk } })

-- "vm0", whatever the name.
abbrev pub fixed_ifname : List ℕ
fixed_ifname = 118 ∷ 109 ∷ 48 ∷ []

unfoldable pub init_tap : Option (TapSetup.Calls) → Action (List TapSetup.Resource)
init_tap none p = (ok [], p)
init_tap (some c) p =
    let made = mvvm_init_virtio_net c fixed_ifname p.self.net in
    (or_failed made.ret >> pure made.held) (record p { self = record p.self { net = made.net } })

unfoldable pub mvvm_init :
    Kvm
    → ℕ
    → Option (DiskSetup.Calls)
    → Option (TapSetup.Calls)
    → Action (List DiskSetup.Resource × List TapSetup.Resource)
unfolding init_machine init_disk init_tap
mvvm_init kvm mem_size disk network = do
  init_machine kvm mem_size
  disk_held ← init_disk disk
  tap_held ← init_tap network
  pure (disk_held, tap_held)

-- ===== src/Vmm.antt =====
-- The virtual machine's memory (mvvm.c): the regions that `mvvm_init` registers with KVM, the table
-- of RAM that the kernel of the guest is given, the place of the initial RAM disk, and the power
-- port.
pub mod Layout
pub mod Initrd
pub mod Run
pub mod Load
pub mod Boot
pub mod Stores
pub mod Setup
use mvvmm.Base.{
  ℕ, ◌+◌, ◌-◌, ◌*◌, ◌^◌, Bool, Option, none, some, List, [], ◌∷◌, ltb, leb, ◌==◌, if◌then◌else◌,
  u32, sub64, length, Outcome, done, ◌>>=◌,
}
use mvvmm.Guest.{GuestMem, store_bytes}

abbrev pub reserved_addr : ℕ
reserved_addr = 0xFFFBD000

-- Three pages for the TSS and one for the identity map.
abbrev pub reserved_size : ℕ
reserved_size = (3 + 1) * 4096

-- `struct kvm_userspace_memory_region`: what the guest sees at an address, and the offset in the
-- mapping that backs it.
pub record Region : Type 0 where
  pub guest_phys_addr : ℕ
  pub memory_size : ℕ
  pub host_offset : ℕ

abbrev pub region : ℕ → ℕ → ℕ → Region
region addr size offset = record {
  guest_phys_addr = addr;
  memory_size = size;
  host_offset = offset;
}

unfoldable pub memory_regions : ℕ → List Region
memory_regions mem_size =
    if leb mem_size reserved_addr
    then region 0 mem_size 0 ∷ []
    else let start = reserved_addr + reserved_size in
      if ltb start mem_size
      then region 0 reserved_addr 0 ∷ region start (mem_size - start) start ∷ []
      else region 0 reserved_addr 0 ∷ []

-- `struct boot_e820_entry`, of type 1 (RAM).
pub record E820Entry : Type 0 where
  pub addr : ℕ
  pub size : ℕ

abbrev pub entry : ℕ → ℕ → E820Entry
entry addr size = record { addr = addr; size = size }

-- The subtraction in the first branch wraps below 1 MB.
unfoldable pub setup_e820_map : ℕ → List E820Entry
setup_e820_map mem_size =
    entry 0 0xA0000
    ∷ (if leb mem_size reserved_addr
        then entry 0x100000 (sub64 mem_size 0x100000) ∷ []
        else entry 0x100000 (reserved_addr - 0x100000)
          ∷ (if ltb (reserved_addr + reserved_size) mem_size
              then entry (reserved_addr + reserved_size)
                  (mem_size - (reserved_addr + reserved_size))
                ∷ []
              else []))

-- `initrd_path`: NULL, a file that cannot be opened and mapped, or a file with its bytes.
pub data InitrdPath : Type 0 where
  no_path unreadable : InitrdPath
  file : List ℕ → InitrdPath

abbrev pub initrd_addr : ℕ
initrd_addr = 1024 * 1024 * 192

-- The memory, `hdr.ramdisk_image` and `hdr.ramdisk_size`, or `none` for the -1.
unfoldable pub load_initrd : GuestMem → InitrdPath → Outcome (Option (GuestMem × ℕ × ℕ))
load_initrd m no_path = done (some (m, 0, 0))
load_initrd m unreadable = done none
load_initrd m (file bytes) =
    if leb m.size (initrd_addr + length bytes)
    then done none
    else do m' ← store_bytes m initrd_addr bytes; done (some (m', initrd_addr, u32 (length bytes)))

-- `mvvmm_shutdown`: the command, and a pulse on interrupt line 5, as its levels.
unfoldable pub mvvmm_shutdown : ℕ → ℕ × List ℕ
mvvmm_shutdown power_cmd = (1, 1 ∷ 0 ∷ [])

-- `handle_power`, out of the guest or in: `power_cmd`, the byte `*io_data`, and the returned `int`.
unfoldable pub handle_power : ℕ → Bool → ℕ → ℕ × ℕ × ℕ
handle_power power_cmd out value =
    if out then (power_cmd, value, if value == 1 then value else 0) else (0, power_cmd, 0)

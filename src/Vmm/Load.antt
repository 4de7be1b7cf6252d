-- ===== src/Vmm/Load.antt =====
-- `mvvm_load_kernel` and `cmdline_concat` (mvvm.c): the kernel, its parameters and its command line.
-- A string is its characters without the NUL. What the headers of Linux fix, the bytes of `struct
-- boot_params`, is a parameter.
use mvvmm.Base.{
  ℕ, ◌+◌, ◌*◌, Bool, Option, none, some, List, [], ◌∷◌, ◌++◌, leb, ltb, if◌then◌else◌, bit_or, min,
  length, take, drop, u32, Outcome, done, crash, ◌>>=◌, Code, success, failure,
}
use mvvmm.Guest.{GuestMem, store_bytes}
use mvvmm.Vmm.{E820Entry, setup_e820_map, InitrdPath, load_initrd}

-- The fields of `struct setup_header` that the code reads or writes, and the others.
pub record SetupHeader : Type 0 where
  pub setup_sects : ℕ
  pub type_of_loader : ℕ
  pub loadflags : ℕ
  pub vid_mode : ℕ
  pub cmd_line_ptr : ℕ
  pub ramdisk_image : ℕ
  pub ramdisk_size : ℕ
  pub others : List ℕ

-- `struct boot_params`: it is cleared but for these.
pub record BootParams : Type 0 where
  pub hdr : SetupHeader
  pub e820_table : List E820Entry

pub record BootFormat : Type 0 where
  pub sizeof_hdr : ℕ
  pub hdr_of : List ℕ → SetupHeader
  pub boot_params : BootParams → List ℕ

abbrev pub zeropage_addr : ℕ
zeropage_addr = 0x10000

abbrev pub cmd_line_addr : ℕ
cmd_line_addr = 0x20000

abbrev pub kernel_addr : ℕ
kernel_addr = 0x100000

abbrev pub max_cmdline : ℕ
max_cmdline = 2000

-- `none`: NULL.
unfoldable pub cmdline_concat : List ℕ → List ℕ → Option (List ℕ)
cmdline_concat buf new =
    let n1 = min (length buf) max_cmdline in
    if leb max_cmdline (n1 + length new) then none else some (take n1 buf ++ new)

-- VIRTIO_BLK_CMDLINE, " virtio_mmio.device=4K@0x10000000000:10", and VIRTIO_NET_CMDLINE, "
-- virtio_mmio.device=4K@0x10040000000:11".
abbrev pub blk_cmdline : List ℕ
blk_cmdline =
    32 ∷ 118 ∷ 105 ∷ 114 ∷ 116 ∷ 105 ∷ 111 ∷ 95 ∷ 109 ∷ 109 ∷ 105 ∷ 111 ∷ 46 ∷ 100 ∷ 101 ∷ 118 ∷ 105
    ∷ 99 ∷ 101 ∷ 61 ∷ 52 ∷ 75 ∷ 64 ∷ 48 ∷ 120 ∷ 49 ∷ 48 ∷ 48 ∷ 48 ∷ 48 ∷ 48 ∷ 48 ∷ 48 ∷ 48 ∷ 48 ∷ 48
    ∷ 58 ∷ 49 ∷ 48 ∷ []

abbrev pub net_cmdline : List ℕ
net_cmdline =
    32 ∷ 118 ∷ 105 ∷ 114 ∷ 116 ∷ 105 ∷ 111 ∷ 95 ∷ 109 ∷ 109 ∷ 105 ∷ 111 ∷ 46 ∷ 100 ∷ 101 ∷ 118 ∷ 105
    ∷ 99 ∷ 101 ∷ 61 ∷ 52 ∷ 75 ∷ 64 ∷ 48 ∷ 120 ∷ 49 ∷ 48 ∷ 48 ∷ 52 ∷ 48 ∷ 48 ∷ 48 ∷ 48 ∷ 48 ∷ 48 ∷ 48
    ∷ 58 ∷ 49 ∷ 49 ∷ []

-- `if (vm->blk)` and `if (vm->net)`.
unfoldable pub add_device : Bool → List ℕ → List ℕ → Option (List ℕ)
add_device device new buf = if device then cmdline_concat buf new else some buf

-- The command line, or `none` where it is invalid.
unfoldable pub full_cmdline : Bool → Bool → List ℕ → Option (List ℕ)
full_cmdline blk net kernel_args = elim (add_device blk blk_cmdline kernel_args) [
  | none ↦ none
  | some with_blk ↦ elim (add_device net net_cmdline with_blk) [
    | none ↦ none
    | some buf ↦ if leb max_cmdline (length buf) then none else some buf
  ]
]

-- The assignments to the header.
unfoldable pub loader_info : SetupHeader → SetupHeader
loader_info hdr = record hdr {
  type_of_loader = 0xFF;
  loadflags = bit_or hdr.loadflags 1;
  vid_mode = 0xFFFF;
  cmd_line_ptr = cmd_line_addr;
}

-- The assignments at the end of `load_initrd`.
unfoldable pub with_ramdisk : BootParams → ℕ → ℕ → BootParams
with_ramdisk params addr size = record params {
  hdr = record params.hdr { ramdisk_image = addr; ramdisk_size = size };
}

module _ (format : BootFormat) where
  -- The parameters of the image, before the initial RAM disk is loaded.
  unfoldable pub boot_params_of : GuestMem → List ℕ → BootParams
  boot_params_of m image = record {
    hdr = loader_info (format.hdr_of (take format.sizeof_hdr (drop 0x01f1 image)));
    e820_table = setup_e820_map m.size;
  }

  -- The initial RAM disk, with its place in the header: 0 and 0 without a path.
  unfoldable pub add_initrd : GuestMem → BootParams → InitrdPath → Outcome (Option GuestMem)
  add_initrd m params path = do
    loaded ← load_initrd m path
    elim loaded [
      | none ↦ done none
      | some (m', addr, size) ↦ do
        m'' ← store_bytes m' zeropage_addr (format.boot_params (with_ramdisk params addr size))
        done (some m'')
    ]

  -- The protected mode kernel. A subtraction below 0 makes the `memcpy` as good as endless.
  unfoldable pub copy_kernel : GuestMem → List ℕ → ℕ → Outcome GuestMem
  copy_kernel m image setup_sects =
      let setup_size = u32 ((setup_sects + 1) * 512) in
      if ltb (length image) setup_size
      then crash
      else store_bytes m kernel_addr (drop setup_size image)

  -- Behind the checks on the size of the image.
  unfoldable pub load_image :
      Bool → Bool → GuestMem → List ℕ → InitrdPath → List ℕ → Outcome (Code × GuestMem)
  load_image blk net m image initrd_path kernel_args = do
    let params = boot_params_of m image
    m1 ← store_bytes m zeropage_addr (format.boot_params params)
    elim (full_cmdline blk net kernel_args) [
      | none ↦ done (failure, m1)
      | some cmdline ↦ do
        m2 ← store_bytes m1 cmd_line_addr (cmdline ++ 0 ∷ [])
        with_initrd ← add_initrd m2 params initrd_path
        elim with_initrd [
          | none ↦ done (failure, m2)
          | some m3 ↦ do m4 ← copy_kernel m3 image params.hdr.setup_sects; done (success, m4)
        ]
    ]

  -- `blk` and `net` are the tests of `vm->blk` and `vm->net`; `none` is an image that `map_file` cannot map.
  unfoldable pub mvvm_load_kernel :
      Bool → Bool → GuestMem → Option (List ℕ) → InitrdPath → List ℕ → Outcome (Code × GuestMem)
  mvvm_load_kernel blk net m none initrd_path kernel_args = done (failure, m)
  mvvm_load_kernel blk net m (some image) initrd_path kernel_args =
      if leb (190 * 1024 * 1024) (length image)
      then done (failure, m)
      else if leb (length image) (128 * 1024)
      then done (failure, m)
      else load_image blk net m image initrd_path kernel_args

-- ===== src/Vmm/Stores.antt =====
-- The stores of `mvvm_load_kernel`, and the length of an accepted command line.
use mvvmm.Base.{
  ℕ, ◌+◌, ◌*◌, ◌≤◌, ◌<◌, ◌≡◌, inl, inr, refl, subst, Bool, false, Bool-cases, Option, none, some,
  HoldsOf, List, leb, ltb, if◌then◌else◌, length, length-drop, drop, u32, done, arith,
}
use mvvmm.Guest.{GuestMem}
use mvvmm.Guest.Frame.{store_bytes-done}
use mvvmm.Virtio.Memory.CopyTo.{stored}
use mvvmm.Vmm.{file, initrd_addr, load_initrd}
use mvvmm.Vmm.Load.{
  BootParams, BootFormat, zeropage_addr, kernel_addr, max_cmdline, add_device, blk_cmdline,
  net_cmdline, full_cmdline, with_ramdisk, add_initrd, copy_kernel,
}

-- A command line that is accepted has fewer than 2000 characters.
pub full_cmdline-short :
    (blk net : Bool) (args cmdline : List ℕ)
    → full_cmdline blk net args ≡ some cmdline
    → length cmdline < max_cmdline
unfolding full_cmdline
full_cmdline-short blk net args cmdline e =
    subst (HoldsOf Short) e (first (add_device blk blk_cmdline args))
  where
    Short : List ℕ → Type 0
    Short buf = length buf < max_cmdline

    checked :
        (o : Option (List ℕ))
        → HoldsOf Short (elim o [
          | none ↦ none
          | some buf ↦ if leb max_cmdline (length buf) then none else some buf
        ])
    checked none = tt
    checked (some buf) = elim (Bool-cases (leb max_cmdline (length buf))) [
      | inl e ↦ rw e tt
      | inr e ↦ rw e (ground (arith, e))
    ]

    first :
        (o : Option (List ℕ))
        → HoldsOf Short (elim o [
          | none ↦ none
          | some with_blk ↦ elim (add_device net net_cmdline with_blk) [
            | none ↦ none
            | some buf ↦ if leb max_cmdline (length buf) then none else some buf
          ]
        ])
    first none = tt
    first (some with_blk) = checked (add_device net net_cmdline with_blk)

module _ (format : BootFormat) where
  pub add_initrd-done :
      (m : GuestMem) (params : BootParams) (bytes page : List ℕ)
      → initrd_addr + length bytes < m.size
      → format.boot_params (with_ramdisk params initrd_addr (u32 (length bytes))) ≡ page
      → length page ≡ 4096
      → add_initrd format m params (file bytes)
        ≡ done (some (stored (stored m initrd_addr bytes) zeropage_addr page))
  unfolding add_initrd load_initrd
  add_initrd-done m params bytes page fits e len =
      let room : leb m.size (initrd_addr + length bytes) ≡ false = ground arith in
      rw
        (
          room,
          store_bytes-done m initrd_addr bytes (omega arith),
          e,
          store_bytes-done (stored m initrd_addr bytes) zeropage_addr page (omega (arith, len)),
        )
        refl

  pub copy_kernel-done :
      (m : GuestMem) (image : List ℕ) (setup_sects : ℕ)
      → setup_sects < 256
      → 128 * 1024 < length image
      → kernel_addr + length image ≤ m.size
      → copy_kernel format m image setup_sects
        ≡ done (stored m kernel_addr (drop ((setup_sects + 1) * 512) image))
  unfolding copy_kernel
  copy_kernel-done m image setup_sects small big fits =
      let size : u32 ((setup_sects + 1) * 512) ≡ (setup_sects + 1) * 512 = omega arith in
      let enough : ltb (length image) ((setup_sects + 1) * 512) ≡ false = ground arith in
      rw
        (
          size,
          enough,
          store_bytes-done m kernel_addr (drop ((setup_sects + 1) * 512) image)
              (omega (arith, length-drop ((setup_sects + 1) * 512) image)),
        )
        refl

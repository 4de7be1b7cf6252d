-- ===== src/Vmm/Boot.antt =====
-- `mvvm_load_kernel` against the memory that the kernel of the guest finds.
use mvvmm.Base.{
  ℕ, ◌+◌, ◌*◌, ◌≤◌, ◌<◌, ◌≡◌, inl, inr, refl, ◌∙◌, Bool, false, some, List, [], ◌∷◌, ◌++◌, leb,
  length, length-append, length-drop, drop, u32, done, success, arith,
}
use mvvmm.Guest.{GuestMem, bytes_at, overlay}
use mvvmm.Guest.Frame.{bytes_at-overlay_self, bytes_at-overlay_outside, store_bytes-done}
use mvvmm.Virtio.Memory.CopyTo.{stored}
use mvvmm.Vmm.{file, initrd_addr}
use mvvmm.Vmm.Load.{
  BootParams, BootFormat, zeropage_addr, cmd_line_addr, kernel_addr, max_cmdline, full_cmdline,
  with_ramdisk, boot_params_of, load_image, mvvm_load_kernel,
}
use mvvmm.Vmm.Stores.{full_cmdline-short, add_initrd-done, copy_kernel-done}

-- The five stores, one over the other.
abbrev loaded : GuestMem → List ℕ → List ℕ → List ℕ → List ℕ → List ℕ → GuestMem
loaded m page cmdline initrd page' kernel =
    stored
      (stored
        (stored (stored (stored m zeropage_addr page) cmd_line_addr cmdline) initrd_addr initrd)
        zeropage_addr page')
      kernel_addr kernel

-- None of them covers another, but for the parameters, which are stored twice.
loaded-parts :
    (m : GuestMem) (page cmdline initrd page' kernel : List ℕ)
    → length page' ≡ 4096
    → length cmdline ≤ max_cmdline
    → length kernel < 190 * 1024 * 1024
    → (bytes_at (loaded m page cmdline initrd page' kernel).byte zeropage_addr (length page')
        ≡ page')
      × (bytes_at (loaded m page cmdline initrd page' kernel).byte cmd_line_addr (length cmdline)
          ≡ cmdline)
      × (bytes_at (loaded m page cmdline initrd page' kernel).byte initrd_addr (length initrd)
          ≡ initrd)
      × (bytes_at (loaded m page cmdline initrd page' kernel).byte kernel_addr (length kernel)
          ≡ kernel)
loaded-parts m page cmdline initrd page' kernel len short small =
    let f1 = overlay m.byte zeropage_addr page in
    let f2 = overlay f1 cmd_line_addr cmdline in
    let f3 = overlay f2 initrd_addr initrd in
    let f4 = overlay f3 zeropage_addr page' in
    (
      bytes_at-overlay_outside f4 kernel_addr kernel zeropage_addr (length page')
            (inl (omega arith))
          ∙ bytes_at-overlay_self f3 zeropage_addr page',
      bytes_at-overlay_outside f4 kernel_addr kernel cmd_line_addr (length cmdline)
            (inl (omega arith))
          ∙ bytes_at-overlay_outside f3 zeropage_addr page' cmd_line_addr (length cmdline)
              (inr (omega arith))
          ∙ bytes_at-overlay_outside f2 initrd_addr initrd cmd_line_addr (length cmdline)
              (inl (omega arith))
          ∙ bytes_at-overlay_self f1 cmd_line_addr cmdline,
      bytes_at-overlay_outside f4 kernel_addr kernel initrd_addr (length initrd) (inr (omega arith))
          ∙ bytes_at-overlay_outside f3 zeropage_addr page' initrd_addr (length initrd)
              (inr (omega arith))
          ∙ bytes_at-overlay_self f2 initrd_addr initrd,
      bytes_at-overlay_self f4 kernel_addr kernel,
    )

module _ (format : BootFormat) (blk net : Bool) (m : GuestMem)
    (image initrd args cmdline : List ℕ) where
  -- The parameters that the kernel of the guest is given.
  abbrev pub final_params : BootParams
  final_params = with_ramdisk (boot_params_of format m image) initrd_addr (u32 (length initrd))

  abbrev pub final_kernel : List ℕ
  final_kernel = drop (((boot_params_of format m image).hdr.setup_sects + 1) * 512) image

  load_image-done :
      ((p : BootParams) → length (format.boot_params p) ≡ 4096)
      → (boot_params_of format m image).hdr.setup_sects < 256
      → 128 * 1024 < length image
      → length image < 190 * 1024 * 1024
      → initrd_addr + length initrd < m.size
      → full_cmdline blk net args ≡ some cmdline
      → load_image format blk net m image (file initrd) args
        ≡ done (
          success,
          loaded m
              (format.boot_params (boot_params_of format m image))
              (cmdline ++ 0 ∷ [])
              initrd
              (format.boot_params final_params)
              final_kernel,
        )
  unfolding load_image
  load_image-done page sects big small fits accepted =
      let params = boot_params_of format m image in
      let short = full_cmdline-short blk net args cmdline accepted in
      let m1 = stored m zeropage_addr (format.boot_params params) in
      let m2 = stored m1 cmd_line_addr (cmdline ++ 0 ∷ []) in
      let m3 =
        stored (stored m2 initrd_addr initrd) zeropage_addr (format.boot_params final_params) in
      rw
        (
          store_bytes-done m zeropage_addr (format.boot_params params) (omega (arith, page params)),
          accepted,
          store_bytes-done m1 cmd_line_addr (cmdline ++ 0 ∷ [])
              (omega (arith, length-append cmdline (0 ∷ []), short)),
          add_initrd-done format m2 params initrd (format.boot_params final_params) fits refl
              (page final_params),
          copy_kernel-done format m3 image params.hdr.setup_sects sects big (omega arith),
        )
        refl

  -- An image of more than 128 KB and less than 190 MB, an initial RAM disk that ends below the end of the
  -- memory and a command line that is accepted are loaded (`struct boot_params` has 4096 bytes, and
  -- `setup_sects` is a byte): the boot parameters, with the place of the initial RAM disk, stand at
  -- 0x10000, the command line and its NUL at 0x20000, the protected mode kernel, which is the
  -- image without its `setup_sects + 1` sectors, at 1 MB, and the initial RAM disk at 192 MB, each of
  -- them whole.
  pub mvvm_load_kernel-places :
      ((p : BootParams) → length (format.boot_params p) ≡ 4096)
      → (boot_params_of format m image).hdr.setup_sects < 256
      → 128 * 1024 < length image
      → length image < 190 * 1024 * 1024
      → initrd_addr + length initrd < m.size
      → full_cmdline blk net args ≡ some cmdline
      → (m' : GuestMem) × (mvvm_load_kernel format blk net m (some image) (file initrd) args
          ≡ done (success, m'))
        × (bytes_at m'.byte zeropage_addr (length (format.boot_params final_params))
            ≡ format.boot_params final_params)
        × (bytes_at m'.byte cmd_line_addr (length (cmdline ++ 0 ∷ [])) ≡ cmdline ++ 0 ∷ [])
        × (bytes_at m'.byte initrd_addr (length initrd) ≡ initrd)
        × (bytes_at m'.byte kernel_addr (length final_kernel) ≡ final_kernel)
  unfolding mvvm_load_kernel
  mvvm_load_kernel-places page sects big small fits accepted =
      let params = boot_params_of format m image in
      let low : leb (190 * 1024 * 1024) (length image) ≡ false = ground arith in
      let high : leb (length image) (128 * 1024) ≡ false = ground arith in
      let short = full_cmdline-short blk net args cmdline accepted in
      let (zero_page, command_line, ram_disk, kernel) =
        loaded-parts m (format.boot_params params) (cmdline ++ 0 ∷ []) initrd
          (format.boot_params final_params) final_kernel (page final_params)
          (omega (arith, length-append cmdline (0 ∷ []), short))
          (omega (arith, length-drop ((params.hdr.setup_sects + 1) * 512) image)) in
      (
        loaded m (format.boot_params params) (cmdline ++ 0 ∷ []) initrd
            (format.boot_params final_params) final_kernel,
        rw (low, high) (load_image-done page sects big small fits accepted),
        zero_page,
        command_line,
        ram_disk,
        kernel,
      )

-- ===== src/Main/Boot.antt =====
-- From the command line to the first instruction of the guest.
use mvvmm.Base.{
  ℕ, ◌++◌, [], ◌∷◌, ◌+◌, ◌*◌, ◌<◌, ◌≡◌, refl, ap, ◌∙◌, true, Option, some, List, if◌then◌else◌,
  length, length-drop, Outcome, done, crash, ◌>>=◌, Code, success, failure, arith,
}
use mvvmm.Guest.{GuestMem, bytes_at}
use mvvmm.Virtio.Device.{Device}
use mvvmm.Cli.Options.{Str, CmdOpts, opts}
use mvvmm.Vmm.{file, initrd_addr, memory_regions}
use mvvmm.Vmm.Layout.{Backed}
use mvvmm.Vmm.Load.{
  BootParams, boot_params_of, full_cmdline, cmd_line_addr, mvvm_load_kernel, kernel_addr,
}
use mvvmm.Vmm.Boot.{final_params, final_kernel, mvvm_load_kernel-places}
use mvvmm.Vmm.Run.{Exit}
use mvvmm.Vmm.Setup.{Regs, Sregs, Call, Mvvm, Progress, Result, ok, error, crashed}
use mvvmm.Vmm.Setup.Cpu.{entry_regs}
use mvvmm.Vmm.Setup.Init.{fresh_memory, mvvm_init}
use mvvmm.Vmm.Setup.Plan.{willing}
use mvvmm.Vmm.Setup.Devices.{DiskMade, TapMade, disk_held, tap_held, made_vm, mvvm_init-made}
use mvvmm.Main.{
  System, map_file, initrd_of, on_path, present, start, zero_vm, minus_one, run_and_destroy,
  load_and_run, main,
}
use mvvmm.Disk.Setup as DiskSetup
use mvvmm.Tap.Setup as TapSetup

module _ {B C : Type 0} (sys : System B C) (fuel chain_fuel : ℕ) (exits : List Exit) where
  abbrev Held : Type 0
  Held = List DiskSetup.Resource × List TapSetup.Resource

  -- The rest of `main` behind the set-up, and behind the kernel.
  abbrev with_vm : CmdOpts → Str → Result Held × Progress → Outcome (Option ℕ)
  with_vm o path (r, p) = elim r [
    | error ↦ done (some minus_one)
    | crashed ↦ crash
    | ok held ↦ load_and_run sys fuel chain_fuel exits o path p.self held
  ]

  abbrev with_kernel : Mvvm → Held → Outcome (Code × GuestMem) → Outcome (Option ℕ)
  with_kernel self held loaded = do
    (code, m') ← loaded
    elim code [
      | failure ↦ done (some minus_one)
      | success ↦
          let running =
            run_and_destroy sys fuel chain_fuel exits (record self { mem_map = some m' }) held in
          if sys.pthread_create then running else done (some 1)
    ]

  main-with_vm :
      (o : CmdOpts) (path : Str)
      → o.kernel_path ≡ some path
      → main sys fuel chain_fuel exits (opts o)
        ≡ with_vm o path (
            mvvm_init sys.kvm o.memory_size
              (on_path sys.disk_calls o.disk_path)
              (on_path (λ name. sys.tap_calls) o.tap_ifname)
              start)
  unfolding main
  main-with_vm o path e = rw e refl

  load_and_run-with_kernel :
      (o : CmdOpts) (path : Str) (self : Mvvm) (held : Held) (m : GuestMem)
      → self.mem_map ≡ some m
      → load_and_run sys fuel chain_fuel exits o path self held
        ≡ with_kernel self held (
            mvvm_load_kernel sys.format
              (present self.blk)
              (present self.net)
              m
              (map_file (sys.files path)).0
              (initrd_of sys.files o.initrd_path)
              o.kernel_cmdline)
  unfolding load_and_run
  load_and_run-with_kernel o path self held m e = rw e refl

  initrd_of-file :
      (o : CmdOpts) (path : Str) (bytes : List ℕ)
      → o.initrd_path ≡ some path
      → (map_file (sys.files path)).0 ≡ some bytes
      → initrd_of sys.files o.initrd_path ≡ file bytes
  unfolding initrd_of
  initrd_of-file o path bytes e f = rw (e, initrd_of, f) refl

  with_kernel-runs :
      (self : Mvvm) (held : Held) (m' : GuestMem)
      → sys.pthread_create ≡ true
      → with_kernel self held (done (success, m'))
        ≡ run_and_destroy sys fuel chain_fuel exits (record self { mem_map = some m' }) held
  with_kernel-runs self held m' e = rw e refl

-- What the virtual CPU can fetch below the reserved pages is in the mapping at the same offset.
low-Backed :
    (mem_size a p : ℕ)
    → a + p < mem_size
    → a + p < 0xFFFBD000
    → Backed (a + p) (a + p) (memory_regions mem_size)
unfolding memory_regions
low-Backed mem_size a p inside low = ground arith

module _ {B C : Type 0} (sys : System B C) (fuel chain_fuel : ℕ) (exits : List Exit) (fd : Call → ℕ)
    (regs : Regs) (sregs : Sregs) (cpuid : List ℕ) (o : CmdOpts) (kernel_path initrd_path : Str)
    (image initrd cmdline : List ℕ) (blk net : Option Device) where
  abbrev memory : GuestMem
  memory = fresh_memory o.memory_size

  abbrev vm : Mvvm
  vm =
      made_vm fd regs sregs cpuid o.memory_size (on_path sys.disk_calls o.disk_path)
        (on_path (λ name. sys.tap_calls) o.tap_ifname) blk net zero_vm

  abbrev params : BootParams
  params =
      final_params sys.format (present blk) (present net) memory image initrd o.kernel_cmdline
        cmdline

  abbrev kernel : List ℕ
  kernel =
      final_kernel sys.format (present blk) (present net) memory image initrd o.kernel_cmdline
        cmdline

  -- With options that name a kernel and an initial RAM disk which can be mapped and loaded (their sizes
  -- and the command line as `mvvm_load_kernel` wants them), where the calls of the system succeed and
  -- each device that is asked for is made, `main` comes to `mvvm_run` and the end behind it, on a
  -- machine with these devices. In its memory the kernel stands whole where the first instruction of
  -- the CPU is fetched (`rip`), at addresses that a region backs with the same bytes, the boot
  -- parameters stand where `rsi` points, and the command line and the initial RAM disk stand whole at
  -- 0x20000 and at 192 MB.
  pub main-boots :
      sys.kvm ≡ willing fd regs sregs cpuid
      → o.kernel_path ≡ some kernel_path
      → o.initrd_path ≡ some initrd_path
      → (map_file (sys.files kernel_path)).0 ≡ some image
      → (map_file (sys.files initrd_path)).0 ≡ some initrd
      → DiskMade (on_path sys.disk_calls o.disk_path) blk
      → TapMade (on_path (λ name. sys.tap_calls) o.tap_ifname) net
      → ((p : BootParams) → length (sys.format.boot_params p) ≡ 4096)
      → (boot_params_of sys.format memory image).hdr.setup_sects < 256
      → 128 * 1024 < length image
      → length image < 190 * 1024 * 1024
      → initrd_addr + length initrd < o.memory_size
      → full_cmdline (present blk) (present net) o.kernel_cmdline ≡ some cmdline
      → sys.pthread_create ≡ true
      → (m : GuestMem) × (main sys fuel chain_fuel exits (opts o)
          ≡ run_and_destroy sys fuel chain_fuel exits
              (record vm { mem_map = some m })
              (disk_held blk, tap_held net))
        × (bytes_at m.byte (entry_regs regs).rip (length kernel) ≡ kernel)
        × (bytes_at m.byte (entry_regs regs).rsi (length (sys.format.boot_params params))
            ≡ sys.format.boot_params params)
        × (bytes_at m.byte cmd_line_addr (length (cmdline ++ 0 ∷ [])) ≡ cmdline ++ 0 ∷ [])
        × (bytes_at m.byte initrd_addr (length initrd) ≡ initrd)
        × ((p : ℕ)
            → p < length kernel
            → Backed
                ((entry_regs regs).rip + p)
                ((entry_regs regs).rip + p)
                (memory_regions o.memory_size))
  unfolding entry_regs
  main-boots host has_kernel has_initrd kernel_file initrd_file disk_made tap_made page sects big
        small fits accepted thread =
      let held : List DiskSetup.Resource × List TapSetup.Resource = (disk_held blk, tap_held net) in
      let (m, loads, zero_page, command_line, ram_disk, there) =
        mvvm_load_kernel-places sys.format (present blk) (present net) memory image initrd
          o.kernel_cmdline cmdline page sects big small fits accepted in
      let made =
        ap
          (λ kvm.
            mvvm_init kvm o.memory_size (on_path sys.disk_calls o.disk_path)
              (on_path (λ name. sys.tap_calls) o.tap_ifname) start)
          host
        ∙ mvvm_init-made fd regs sregs cpuid o.memory_size _ _ blk net start disk_made tap_made refl
            refl in
      let files =
        ap
          (λ k.
            mvvm_load_kernel sys.format (present blk) (present net) memory k
              (initrd_of sys.files o.initrd_path) o.kernel_cmdline)
          kernel_file
        ∙ ap
            (λ i.
              mvvm_load_kernel sys.format (present blk) (present net) memory (some image) i
                o.kernel_cmdline)
            (initrd_of-file sys fuel chain_fuel exits o initrd_path initrd has_initrd initrd_file)
        ∙ loads in
      (
        m,
        main-with_vm sys fuel chain_fuel exits o kernel_path has_kernel
            ∙ ap (with_vm sys fuel chain_fuel exits o kernel_path) made
            ∙ load_and_run-with_kernel sys fuel chain_fuel exits o kernel_path vm held memory refl
            ∙ ap (with_kernel sys fuel chain_fuel exits vm held) files
            ∙ with_kernel-runs sys fuel chain_fuel exits vm held m thread,
        there,
        zero_page,
        command_line,
        ram_disk,
        λ p inside.
            low-Backed o.memory_size kernel_addr p
              (omega (
                arith,
                length-drop (((boot_params_of sys.format memory image).hdr.setup_sects + 1) * 512)
                    image,
              ))
              (omega (
                arith,
                length-drop (((boot_params_of sys.format memory image).hdr.setup_sects + 1) * 512)
                    image,
              )),
      )

-- ===== src/Tests/Boot.antt =====
-- An image of 128 KB and 1 byte, whose header says that 4 of its sectors are the setup code.
use mvvmm.Base.{
  ℕ, ◌+◌, ◌*◌, ◌<◌, ◌≡◌, refl, true, false, some, List, [], ◌∷◌, ◌++◌, length, drop, u32, replicate,
  length-replicate, arith,
}
use mvvmm.Guest.{GuestMem}
use mvvmm.Vmm.{initrd_addr}
use mvvmm.Vmm.Load.{
  BootParams, BootFormat, blk_cmdline, cmdline_concat, add_device, full_cmdline, loader_info,
  with_ramdisk, boot_params_of,
}

abbrev pub format : BootFormat
format = record {
  sizeof_hdr = 123;
  hdr_of = λ bytes. record {
    setup_sects = 4;
    type_of_loader = 0;
    loadflags = 0;
    vid_mode = 0;
    cmd_line_ptr = 0;
    ramdisk_image = 0;
    ramdisk_size = 0;
    others = bytes;
  };
  boot_params = λ p. replicate 4096 0;
}

abbrev pub ram : GuestMem
ram = record { size = 0x10000000; byte = λ p. 0 }

pub image : List ℕ
image = replicate 131073 7

pub length-image : length image ≡ 131073
unfolding image
length-image = length-replicate {A = ℕ} 131073 7

abbrev pub cmdline : List ℕ
cmdline = 100 ∷ [] ++ blk_cmdline

pub accepted : full_cmdline true false (100 ∷ []) ≡ some cmdline
unfolding full_cmdline add_device cmdline_concat
accepted = refl

abbrev pub params : BootParams
params = with_ramdisk (boot_params_of format ram image) initrd_addr (u32 3)

abbrev pub kernel : List ℕ
kernel = drop (((boot_params_of format ram image).hdr.setup_sects + 1) * 512) image

pub few_sectors : (boot_params_of format ram image).hdr.setup_sects < 256
unfolding boot_params_of loader_info
few_sectors = omega arith

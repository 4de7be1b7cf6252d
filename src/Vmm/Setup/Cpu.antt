-- ===== src/Vmm/Setup/Cpu.antt =====
-- `set_flat_mode` and `init_cpu`.
use mvvmm.Base.{ℕ, ◌+◌, ◌-◌, Option, none, some, bit_or}
use mvvmm.Vmm.Setup.{
  Segment, Regs, Sregs, get_sregs, get_regs, set_regs, set_sregs, malloc_cpuid, get_supported_cpuid,
  set_cpuid2, Kvm, Progress, Action, ◌>>=◌, ◌>>◌, pure, modify, or_error, or_crash, ask, required,
}

unfoldable pub set_flat_mode : Segment → Segment
set_flat_mode seg = record seg { base = 0; limit = 0xffffffff; g = 1; db = 1 }

-- The assignments to `regs` and to `sregs`.
unfoldable pub entry_regs : Regs → Regs
entry_regs regs = record regs { rip = 0x100000; rsi = 0x10000 }

unfoldable pub entry_sregs : Sregs → Sregs
unfolding set_flat_mode
entry_sregs sregs = record sregs {
  cs = set_flat_mode sregs.cs;
  ds = set_flat_mode sregs.ds;
  es = set_flat_mode sregs.es;
  fs = set_flat_mode sregs.fs;
  gs = set_flat_mode sregs.gs;
  ss = set_flat_mode sregs.ss;
  cr0 = bit_or sregs.cr0 0x1;
}

abbrev pub max_entries : ℕ
max_entries = 100

unfoldable pub free_cpuid : Progress → Progress
free_cpuid p = record p { cpuids = p.cpuids - 1 }

-- `free(cpuid)`, and then the -1 where the call has failed.
unfoldable pub or_free : Option ℕ → Action ℕ
unfolding free_cpuid
or_free none = modify free_cpuid >> or_error none
or_free (some n) = pure n

-- The `malloc` is not checked.
unfoldable pub init_cpuid : Kvm → ℕ → ℕ → Action Unit
unfolding ask free_cpuid or_free
init_cpuid kvm kvm_fd cpu_fd = do
  got ← ask kvm malloc_cpuid
  or_crash got
  modify λ p. record p { cpuids = p.cpuids + 1 }
  supported ← ask kvm (get_supported_cpuid kvm_fd max_entries)
  or_free supported
  taken ← ask kvm (set_cpuid2 cpu_fd kvm.cpuid)
  or_free taken
  modify free_cpuid

unfoldable pub init_cpu : Kvm → ℕ → ℕ → Action Unit
unfolding required entry_regs entry_sregs init_cpuid
init_cpu kvm kvm_fd cpu_fd = do
  required kvm (get_sregs cpu_fd)
  required kvm (get_regs cpu_fd)
  required kvm (set_regs cpu_fd (entry_regs kvm.regs))
  required kvm (set_sregs cpu_fd (entry_sregs kvm.sregs))
  init_cpuid kvm kvm_fd cpu_fd

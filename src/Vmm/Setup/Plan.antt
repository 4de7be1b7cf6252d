-- ===== src/Vmm/Setup/Plan.antt =====
-- The calls of a set-up in which none fails.
use mvvmm.Base.{
  ℕ, suc, ap, ◌∙◌, ◌-◌, ◌+◌, ◌≡◌, refl, false, Bool-cases, inl, inr, some, List, [], ◌∷◌, ltb, leb,
  arith,
}
use mvvmm.Serial.{serial_init}
use mvvmm.Vmm.{reserved_addr, reserved_size, Region, memory_regions}
use mvvmm.Vmm.Setup.{
  Regs, Sregs, Call, open_kvm, create_vm, create_irqchip, create_pit2, set_tss_addr,
  set_identity_map_addr, malloc_mem_map, mmap_memory, set_user_memory_region, create_vcpu,
  get_sregs, get_regs, set_regs, set_sregs, malloc_cpuid, get_supported_cpuid, set_cpuid2, Kvm,
  Progress, Result, ◌>>=◌, ◌>>◌, on_self, ok, ask, required,
}
use mvvmm.Vmm.Setup.Cpu.{
  entry_regs, entry_sregs, max_entries, free_cpuid, or_free, init_cpuid, init_cpu,
}
use mvvmm.Vmm.Setup.Init.{
  tss_addr, identity_map_addr, open_into, open_vm, fresh_memory, register_memory, init_memory,
  init_machine,
}

-- The regions from a slot on, each behind those before it.
unfoldable pub registered : ℕ → ℕ → List Region → List Call → List Call
registered vm_fd slot [] asked = asked
registered vm_fd slot (r ∷ rs) asked =
    registered vm_fd (suc slot) rs (set_user_memory_region vm_fd slot r ∷ asked)

-- A host whose calls succeed.
abbrev pub willing : (Call → ℕ) → Regs → Sregs → List ℕ → Kvm
willing fd regs sregs cpuid = record {
  answer = λ c. some (fd c);
  regs = regs;
  sregs = sregs;
  cpuid = cpuid;
}

-- The descriptors that it gives.
module _ (fd : Call → ℕ) where
  abbrev pub kvm_fd_of : ℕ
  kvm_fd_of = fd open_kvm

  abbrev pub vm_fd_of : ℕ
  vm_fd_of = fd (create_vm kvm_fd_of)

  abbrev pub cpu_fd_of : ℕ
  cpu_fd_of = fd (create_vcpu vm_fd_of)

module _ (fd : Call → ℕ) (regs : Regs) (sregs : Sregs) (cpuid : List ℕ) (mem_size : ℕ) where
  abbrev vm_calls : List Call → List Call
  vm_calls before =
      set_identity_map_addr (vm_fd_of fd) identity_map_addr
      ∷ set_tss_addr (vm_fd_of fd) tss_addr
      ∷ create_pit2 (vm_fd_of fd)
      ∷ create_irqchip (vm_fd_of fd)
      ∷ create_vm (kvm_fd_of fd)
      ∷ open_kvm
      ∷ before

  abbrev cpu_calls : List Call → List Call
  cpu_calls before =
      set_cpuid2 (cpu_fd_of fd) cpuid
      ∷ get_supported_cpuid (kvm_fd_of fd) max_entries
      ∷ malloc_cpuid
      ∷ set_sregs (cpu_fd_of fd) (entry_sregs sregs)
      ∷ set_regs (cpu_fd_of fd) (entry_regs regs)
      ∷ get_regs (cpu_fd_of fd)
      ∷ get_sregs (cpu_fd_of fd)
      ∷ create_vcpu (vm_fd_of fd)
      ∷ before

  -- All the calls, the latest first.
  abbrev pub plan : List Call → List Call
  plan before = cpu_calls (
      registered (vm_fd_of fd) 0 (memory_regions mem_size)
        (mmap_memory mem_size ∷ malloc_mem_map ∷ vm_calls before))

  register_memory-registered :
      (vm_fd : ℕ) (p : Progress)
      → register_memory (willing fd regs sregs cpuid) vm_fd mem_size p
        ≡ (ok tt, record p { asked = registered vm_fd 0 (memory_regions mem_size) p.asked })
  unfolding register_memory required ask registered memory_regions
  register_memory-registered vm_fd p = elim (Bool-cases (leb mem_size reserved_addr)) [
    | inl small ↦ rw small refl
    | inr large ↦ elim (Bool-cases (ltb (reserved_addr + reserved_size) mem_size)) [
      | inl two ↦ rw (large, two) refl
      | inr one ↦ rw (large, one) refl
    ]
  ]

  abbrev host : Kvm
  host = willing fd regs sregs cpuid

  -- The end of the set-up, behind the registration of the memory.
  abbrev add_cpu : Result Unit × Progress → Result Unit × Progress
  add_cpu r =
      ((λ (_ : Progress). r)
          >> (open_into host (create_vcpu (vm_fd_of fd)) (λ fd self. record self { cpu_fd = fd })
              >>= λ cpu_fd.
                  init_cpu host (kvm_fd_of fd) cpu_fd
                  >> on_self λ self. record self { serial = serial_init }))
        r.1

  -- Before it.
  abbrev mapped : Progress → Progress
  mapped p = record p {
    self = record p.self {
      quit = false;
      kvm_fd = some (kvm_fd_of fd);
      vm_fd = some (vm_fd_of fd);
      mem_map = some (fresh_memory mem_size);
    };
    asked = mmap_memory mem_size ∷ malloc_mem_map ∷ vm_calls p.asked;
  }

  init_machine-stages :
      (p : Progress)
      → init_machine host mem_size p
        ≡ add_cpu (register_memory host (vm_fd_of fd) mem_size (mapped p))
  unfolding init_machine open_vm init_memory open_into init_cpu init_cpuid or_free free_cpuid
      required ask
  init_machine-stages p = refl

  abbrev finished : Progress → Progress
  finished p = record p {
    self = record p.self {
      kvm_fd = some (kvm_fd_of fd);
      vm_fd = some (vm_fd_of fd);
      cpu_fd = some (cpu_fd_of fd);
      mem_map = some (fresh_memory mem_size);
      serial = serial_init;
      quit = false;
    };
    asked = plan p.asked;
  }

  add_cpu-finished :
      (p : Progress)
      → add_cpu (
        ok tt,
        record (mapped p) {
          asked = registered (vm_fd_of fd) 0 (memory_regions mem_size) (mapped p).asked;
        },
      )
        ≡ (ok tt, finished p)
  unfolding open_into init_cpu init_cpuid or_free free_cpuid required ask
  add_cpu-finished p =
      let freed : p.cpuids + 1 - 1 ≡ p.cpuids = omega arith in
      ap (λ n. (ok tt, record (finished p) { cpuids = n })) freed

  -- Where every call of the system succeeds, the part of `mvvm_init` up to the serial port succeeds. Its
  -- calls are those of the plan, in its order: KVM is told of exactly the regions of `memory_regions`,
  -- each in a slot of its own, and the CPU gets the registers of `entry_regs` and `entry_sregs` and
  -- the CPUID entries that KVM supports. The struct then has the three descriptors and the memory, which
  -- reads as zeros, and no `struct kvm_cpuid2` is left.
  pub init_machine-plan :
      (p : Progress)
      → init_machine (willing fd regs sregs cpuid) mem_size p ≡ (
        ok tt,
        record p {
          self = record p.self {
            kvm_fd = some (kvm_fd_of fd);
            vm_fd = some (vm_fd_of fd);
            cpu_fd = some (cpu_fd_of fd);
            mem_map = some (fresh_memory mem_size);
            serial = serial_init;
            quit = false;
          };
          asked = plan p.asked;
        },
      )
  init_machine-plan p =
      init_machine-stages p
      ∙ ap add_cpu (register_memory-registered (vm_fd_of fd) (mapped p))
      ∙ add_cpu-finished p

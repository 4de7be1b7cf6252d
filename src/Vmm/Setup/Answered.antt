-- ===== src/Vmm/Setup/Answered.antt =====
-- A set-up against a host whose calls may fail.
use mvvmm.Base.{
  ℕ, arith, subst, ◌-◌, ◌+◌, ◌≡◌, refl, false, Bool-cases, inl, inr, Option, none, some, List, [],
  ◌∷◌, if◌then◌else◌, ltb, leb,
}
use mvvmm.Serial.{serial_init}
use mvvmm.Vmm.{reserved_addr, reserved_size, region}
use mvvmm.Vmm.Setup.{
  Call, open_kvm, create_vm, create_irqchip, create_pit2, set_tss_addr, set_identity_map_addr,
  malloc_mem_map, mmap_memory, set_user_memory_region, create_vcpu, get_sregs, get_regs, set_regs,
  set_sregs, malloc_cpuid, get_supported_cpuid, set_cpuid2, Kvm, Mvvm, Progress, Result, Action, ok,
  error, crashed, ◌>>=◌, ◌>>◌, pure, on_self, ask, required, or_error,
}
use mvvmm.Vmm.Setup.Cpu.{
  entry_regs, entry_sregs, max_entries, free_cpuid, or_free, init_cpuid, init_cpu,
}
use mvvmm.Vmm.Setup.Init.{
  tss_addr, identity_map_addr, open_into, open_vm, with_kvm_fd, with_vm_fd, with_cpu_fd,
  fresh_memory, register_memory, init_memory, init_machine,
}

-- Every one of the calls has succeeded.
abbrev pub Answered : Kvm → List Call → Type 0
Answered kvm [] = Unit {0}
Answered kvm (c ∷ asked) = ((fd : ℕ) × (kvm.answer c ≡ some fd)) × Answered kvm asked

-- The latest call has failed, and all before it have succeeded.
abbrev pub Refused : Kvm → List Call → Type 0
Refused kvm [] = ⊥
Refused kvm (c ∷ asked) = (kvm.answer c ≡ none) × Answered kvm asked

-- The latest call is the `malloc` that is not checked.
abbrev pub LastMalloc : List Call → Type 0
LastMalloc [] = ⊥
LastMalloc (c ∷ asked) = c ≡ malloc_cpuid

-- What a run says of the calls, by its result; `before` is the number of `struct kvm_cpuid2` in use.
abbrev pub Stops : {A : Type 0} → Kvm → ℕ → Result A × Progress → Type 0
Stops kvm before (ok a, p) = Answered kvm p.asked × (p.cpuids ≡ before)
Stops kvm before (error, p) = Refused kvm p.asked × (p.cpuids ≡ before)
Stops kvm before (crashed, p) = Refused kvm p.asked × LastMalloc p.asked × (p.cpuids ≡ before)

module _ (kvm : Kvm) where
  abbrev Honest : {A : Type 0} → Action A → Type 0
  Honest m = (p : Progress) → Answered kvm p.asked → Stops kvm p.cpuids (m p)

  behind :
      {A B : Type 0} (n : ℕ) (r : Result A) (p : Progress) (f : A → Action B)
      → Stops kvm n (r, p)
      → ((a : A) → Honest (f a))
      → Stops kvm n (((λ (_ : Progress). (r, p)) >>= f) p)
  behind n (ok a) p f (asked, same) h = subst (λ k. Stops kvm k (f a p)) same (h a p asked)
  behind n error p f stops h = stops
  behind n crashed p f stops h = stops

  bind-Honest :
      {A B : Type 0} (m : Action A) (f : A → Action B)
      → Honest m
      → ((a : A) → Honest (f a))
      → Honest (m >>= f)
  bind-Honest m f h k p asked = behind p.cpuids (m p).0 (m p).1 f (h p asked) k

  required-Honest : (c : Call) → Honest (required kvm c)
  unfolding required ask
  required-Honest c p asked = answered (kvm.answer c) refl
    where
      answered :
          (o : Option ℕ)
          → kvm.answer c ≡ o
          → Stops kvm p.cpuids (or_error o (record p { asked = c ∷ p.asked }))
      answered none e = ((e, asked), refl)
      answered (some fd) e = (((fd, e), asked), refl)

  open_into-Honest : (c : Call) (store : Option ℕ → Mvvm → Mvvm) → Honest (open_into kvm c store)
  unfolding open_into ask
  open_into-Honest c store p asked = answered (kvm.answer c) refl
    where
      answered :
          (o : Option ℕ)
          → kvm.answer c ≡ o
          → Stops kvm p.cpuids
              (or_error o (record p { asked = c ∷ p.asked; self = store (kvm.answer c) p.self }))
      answered none e = ((e, asked), refl)
      answered (some fd) e = (((fd, e), asked), refl)

  init_cpuid-Honest : (kvm_fd cpu_fd : ℕ) → Honest (init_cpuid kvm kvm_fd cpu_fd)
  unfolding init_cpuid ask or_free free_cpuid
  init_cpuid-Honest kvm_fd cpu_fd p asked =
      answered (kvm.answer malloc_cpuid) (kvm.answer (get_supported_cpuid kvm_fd max_entries))
        (kvm.answer (set_cpuid2 cpu_fd kvm.cpuid)) refl refl refl
    where
      freed : p.cpuids + 1 - 1 ≡ p.cpuids
      freed = omega arith

      answered :
          (a b c : Option ℕ)
          → kvm.answer malloc_cpuid ≡ a
          → kvm.answer (get_supported_cpuid kvm_fd max_entries) ≡ b
          → kvm.answer (set_cpuid2 cpu_fd kvm.cpuid) ≡ c
          → Stops kvm p.cpuids (init_cpuid kvm kvm_fd cpu_fd p)
      answered none b c e f g = rw (init_cpuid, e) ((e, asked), refl, refl)
      answered (some x) none c e f g = rw (init_cpuid, e, f) ((f, ((x, e), asked)), freed)
      answered (some x) (some y) none e f g =
          rw (init_cpuid, e, f, g) ((g, ((y, f), ((x, e), asked))), freed)
      answered (some x) (some y) (some z) e f g =
          rw (init_cpuid, e, f, g) (((z, g), ((y, f), ((x, e), asked))), freed)

  then-Honest : {B : Type 0} (c : Call) (n : Action B) → Honest n → Honest (required kvm c >> n)
  then-Honest c n h = bind-Honest (required kvm c) (λ _. n) (required-Honest c) (λ _. h)

  init_cpu-Honest : (kvm_fd cpu_fd : ℕ) → Honest (init_cpu kvm kvm_fd cpu_fd)
  unfolding init_cpu
  init_cpu-Honest kvm_fd cpu_fd = then-Honest (get_sregs cpu_fd) _ (
      then-Honest (get_regs cpu_fd) _ (
        then-Honest (set_regs cpu_fd (entry_regs kvm.regs)) _ (
          then-Honest (set_sregs cpu_fd (entry_sregs kvm.sregs)) _
            (init_cpuid-Honest kvm_fd cpu_fd))))

  pure-Honest : {A : Type 0} (a : A) → Honest (pure a)
  pure-Honest a p asked = (asked, refl)

  open_vm-Honest : Honest (open_vm kvm)
  unfolding open_vm
  open_vm-Honest p =
      bind-Honest {B = ℕ × ℕ} (open_into kvm open_kvm with_kvm_fd) _
        (open_into-Honest open_kvm with_kvm_fd)
        (λ kvm_fd.
          bind-Honest {B = ℕ × ℕ} (open_into kvm (create_vm kvm_fd) with_vm_fd) _
            (open_into-Honest (create_vm kvm_fd) with_vm_fd)
            (λ vm_fd. then-Honest (create_irqchip vm_fd) _ (
              then-Honest (create_pit2 vm_fd) _ (
                then-Honest (set_tss_addr vm_fd tss_addr) _ (
                  then-Honest (set_identity_map_addr vm_fd identity_map_addr) (pure (kvm_fd, vm_fd))
                    (pure-Honest {A = ℕ × ℕ} (kvm_fd, vm_fd)))))))
        (record p { self = record p.self { quit = false } })

  register_memory-Honest : (vm_fd mem_size : ℕ) → Honest (register_memory kvm vm_fd mem_size)
  unfolding register_memory
  register_memory-Honest vm_fd mem_size = elim (Bool-cases (leb mem_size reserved_addr)) [
    | inl small ↦ rw small (
        then-Honest (set_user_memory_region vm_fd 0 (region 0 mem_size 0)) (pure tt)
          (pure-Honest tt))
    | inr large ↦ rw large (then-Honest (set_user_memory_region vm_fd 0 _) _ (second))
  ]
    where
      start : ℕ
      start = reserved_addr + reserved_size

      high : Call
      high = set_user_memory_region vm_fd 1 (region start (mem_size - start) start)

      second : Honest (if ltb start mem_size then required kvm high >> pure tt else pure tt)
      second = elim (Bool-cases (ltb start mem_size)) [
        | inl two ↦ rw two (then-Honest high (pure tt) (pure-Honest tt))
        | inr one ↦ rw one (pure-Honest tt)
      ]

  init_memory-Honest : (vm_fd mem_size : ℕ) → Honest (init_memory kvm vm_fd mem_size)
  unfolding init_memory
  init_memory-Honest vm_fd mem_size = then-Honest malloc_mem_map _ (
      then-Honest (mmap_memory mem_size) _ (λ p.
        register_memory-Honest vm_fd mem_size
          (record p { self = record p.self { mem_map = some (fresh_memory mem_size) } })))

  -- The part of `mvvm_init` up to the serial port, whatever the host answers: it succeeds only if every
  -- call that it has made has; where it fails, the latest call has failed, every call before that has
  -- succeeded, and none is made behind it; an access through NULL happens only where the `malloc` of
  -- the CPUID entries gives none. In each case every `struct kvm_cpuid2` is freed again.
  pub init_machine-stops :
      (mem_size : ℕ) (p : Progress)
      → Answered kvm p.asked
      → Stops kvm p.cpuids (init_machine kvm mem_size p)
  unfolding init_machine
  init_machine-stops mem_size = bind-Honest (open_vm kvm) _ open_vm-Honest (λ fds.
      bind-Honest (init_memory kvm fds.1 mem_size) _ (init_memory-Honest fds.1 mem_size) (λ _.
        bind-Honest (open_into kvm (create_vcpu fds.1) with_cpu_fd) _
          (open_into-Honest (create_vcpu fds.1) with_cpu_fd)
          (λ cpu_fd.
            bind-Honest (init_cpu kvm fds.0 cpu_fd)
              (λ _. on_self λ self. record self { serial = serial_init })
              (init_cpu-Honest fds.0 cpu_fd) (λ _ p asked. (asked, refl)))))

-- ===== src/Vmm/Setup.antt =====
-- `mvvm_init` and `init_cpu` (mvvm.c): the set-up of the virtual machine. The calls of the system are
-- data; what each of them is answered is a parameter.
pub mod Cpu
pub mod Init
pub mod Plan
pub mod Answered
pub mod Destroy
pub mod Devices
pub mod Reserved
use mvvmm.Base.{ℕ, ◌≡◌, ap, Bool, Option, none, some, List, ◌∷◌}
use mvvmm.Guest.{GuestMem}
use mvvmm.Serial.{Serial}
use mvvmm.Virtio.Device.{Device}
use mvvmm.Vmm.{Region}

-- `struct kvm_segment`, `struct kvm_regs` and `struct kvm_sregs`: the fields that are written, and
-- the others.
pub record Segment : Type 0 where
  pub base : ℕ
  pub limit : ℕ
  pub g : ℕ
  pub db : ℕ
  pub others : List ℕ

pub record Regs : Type 0 where
  pub rip : ℕ
  pub rsi : ℕ
  pub others : List ℕ

pub record Sregs : Type 0 where
  pub cs : Segment
  pub ds : Segment
  pub es : Segment
  pub fs : Segment
  pub gs : Segment
  pub ss : Segment
  pub cr0 : ℕ
  pub others : List ℕ

-- `open`, `malloc`, `mmap`, and the requests of `ioctl` with the descriptor that they go to and
-- what they carry.
pub data Call : Type 0 where
  open_kvm : Call
  create_vm : ℕ → Call
  create_irqchip : ℕ → Call
  create_pit2 : ℕ → Call
  set_tss_addr : ℕ → ℕ → Call
  set_identity_map_addr : ℕ → ℕ → Call
  malloc_mem_map : Call
  mmap_memory : ℕ → Call
  set_user_memory_region : ℕ → ℕ → Region → Call
  create_vcpu : ℕ → Call
  get_sregs : ℕ → Call
  get_regs : ℕ → Call
  set_regs : ℕ → Regs → Call
  set_sregs : ℕ → Sregs → Call
  malloc_cpuid : Call
  get_supported_cpuid : ℕ → ℕ → Call
  set_cpuid2 : ℕ → List ℕ → Call

-- The host: the answer to a call, `none` for a failure and else a number that is not negative; the
-- registers of a new CPU; and the entries that KVM_GET_SUPPORTED_CPUID gives.
pub record Kvm : Type 0 where
  pub answer : Call → Option ℕ
  pub regs : Regs
  pub sregs : Sregs
  pub cpuid : List ℕ

-- `struct mvvm`: `none` is a negative descriptor, or NULL.
pub record Mvvm : Type 0 where
  pub kvm_fd : Option ℕ
  pub vm_fd : Option ℕ
  pub cpu_fd : Option ℕ
  pub mem_map : Option GuestMem
  pub serial : Serial
  pub blk : Option Device
  pub net : Option Device
  pub quit : Bool
  pub power_cmd : ℕ

-- The struct, the calls so far, latest first, and the number of `struct kvm_cpuid2` in use.
pub record Progress : Type 0 where
  pub self : Mvvm
  pub asked : List Call
  pub cpuids : ℕ

-- A value, the -1, or an access through NULL.
pub data Result (A : Type 0) : Type 0 where
  ok : A → Result A
  error : Result A
  crashed : Result A

-- What has been written and asked stays behind an error.
abbrev pub Action : Type 0 → Type 0
Action A = Progress → Result A × Progress

infixl 5 ◌>>=◌ ◌>>◌
abbrev pub ◌>>=◌ : {A B : Type 0} → Action A → (A → Action B) → Action B
◌>>=◌ m f p =
    let (r, p') = m p in elim r [ ok a ↦ f a p' | error ↦ (error, p') | crashed ↦ (crashed, p') ]

abbrev pub ◌>>◌ : {A B : Type 0} → Action A → Action B → Action B
m >> k = m >>= λ _. k

abbrev pub pure : {A : Type 0} → A → Action A
pure a p = (ok a, p)

abbrev pub modify : (Progress → Progress) → Action Unit
modify f p = (ok tt, f p)

abbrev pub on_self : (Mvvm → Mvvm) → Action Unit
on_self f p = (ok tt, record p { self = f p.self })

abbrev pub or_error : {A : Type 0} → Option A → Action A
or_error none p = (error, p)
or_error (some a) p = (ok a, p)

abbrev pub or_crash : {A : Type 0} → Option A → Action A
or_crash none p = (crashed, p)
or_crash (some a) p = (ok a, p)

-- A call, with its answer as the value.
unfoldable pub ask : Kvm → Call → Action (Option ℕ)
ask kvm c p = (ok (kvm.answer c), record p { asked = c ∷ p.asked })

-- `if (ioctl(..) < 0) return -1;`
unfoldable pub required : Kvm → Call → Action ℕ
unfolding ask
required kvm c = ask kvm c >>= or_error

-- What comes behind a value.
pub bind-ok :
    {A B : Type 0} (m : Action A) (f : A → Action B) {p p' : Progress} {a : A}
    → m p ≡ (ok a, p')
    → (m >>= f) p ≡ f a p'
bind-ok {A = A} m f {p = p} e = ap (λ (r : Result A × Progress). ((λ (_ : Progress). r) >>= f) p) e

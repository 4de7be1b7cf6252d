-- ===== src/Tests/Setup.antt =====
-- Set-ups of the virtual machine.
use mvvmm.Base.{ℕ, ◌≡◌, Option, none, some, [], ◌∷◌}
use mvvmm.Serial.{serial_init}
use mvvmm.Vmm.Setup.{
  Segment, Regs, Sregs, Call, open_kvm, create_vm, create_pit2, create_vcpu, Kvm, ok,
}
use mvvmm.Vmm.Setup.Init.{fresh_memory, init_machine}
use mvvmm.Vmm.Setup.Plan.{willing, plan, init_machine-plan}
use mvvmm.Vmm.Setup.Answered.{Stops, init_machine-stops}
use mvvmm.Main.{start}

abbrev pub regs : Regs
regs = record { rip = 0xfff0; rsi = 0; others = 2 ∷ [] }

abbrev segment : Segment
segment = record { base = 0; limit = 0xffff; g = 0; db = 0; others = 3 ∷ [] }

abbrev pub sregs : Sregs
sregs = record {
  cs = segment;
  ds = segment;
  es = segment;
  fs = segment;
  gs = segment;
  ss = segment;
  cr0 = 0x60000010;
  others = [];
}

-- The descriptors, and 0 for the other calls.
abbrev pub fd : Call → ℕ
fd open_kvm = 3
fd (create_vm kvm_fd) = 4
fd (create_vcpu vm_fd) = 5
fd _ = 0

-- 8 GB: two regions.
init_machine-plan_example : init_machine (willing fd regs sregs (1 ∷ 2 ∷ [])) 0x200000000 start ≡ (
  ok tt,
  record start {
    self = record start.self {
      kvm_fd = some 3;
      vm_fd = some 4;
      cpu_fd = some 5;
      mem_map = some (fresh_memory 0x200000000);
      serial = serial_init;
    };
    asked = plan fd regs sregs (1 ∷ 2 ∷ []) 0x200000000 [];
  },
)
init_machine-plan_example = init_machine-plan fd regs sregs (1 ∷ 2 ∷ []) 0x200000000 start

-- A host without a timer.
abbrev no_pit : Call → Option ℕ
no_pit (create_pit2 vm_fd) = none
no_pit _ = some 3

abbrev without_pit : Kvm
without_pit = record { answer = no_pit; regs = regs; sregs = sregs; cpuid = [] }

init_machine-stops_example : Stops without_pit 0 (init_machine without_pit 0x8000000 start)
init_machine-stops_example = init_machine-stops without_pit 0x8000000 start tt

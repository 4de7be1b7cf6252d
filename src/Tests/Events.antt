-- ===== src/Tests/Events.antt =====
-- A device whose thread cannot be created.
use mvvmm.Base.{◌≡◌, false, [], ◌∷◌, if◌then◌else◌, success, failure, arith}
use mvvmm.Virtio.Events.{taken, InitCalls, init_events, no_fds}
use mvvmm.Virtio.Events.Leaves.{all_taken, with_irq, open_at_end, init_events-open_at_end}

abbrev calls : InitCalls
calls = record { irq = taken 7; queue0 = taken 8; queue1 = taken 9; thread = false }

init_events-open_at_end_example :
    ((init_events calls (no_fds (3 ∷ []))).0 ≡ (if all_taken calls then success else failure))
    × (open_at_end calls (3 ∷ [])
        ≡ (if all_taken calls then 3 ∷ [] else with_irq (taken 7) (3 ∷ [])))
init_events-open_at_end_example = init_events-open_at_end calls (3 ∷ []) (λ e. ground arith)

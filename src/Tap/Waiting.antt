-- ===== src/Tap/Waiting.antt =====
-- The thread that brings packets, once `quit` is set, as the destruction of the device waits for it.
use mvvmm.Base.{Bool, true, false, List, [], ◌∷◌}
use mvvmm.Virtio.Events.{Ending, ended, faulted, running}
use mvvmm.Tap.{Readiness}

-- What the interface gives, with `quit` set in every round of the loop, and with no packet for which the
-- memory of the guest is used.
abbrev pub quitting : List Readiness → List (Bool × Readiness)
quitting [] = []
quitting (r ∷ given) = (true, r) ∷ quitting given

abbrev pub untouched : List Readiness → List (Readiness × Bool)
untouched [] = []
untouched (r ∷ given) = (r, false) ∷ untouched given

abbrev pub has_ended : Ending → Bool
has_ended ended = true
has_ended faulted = false
has_ended running = false

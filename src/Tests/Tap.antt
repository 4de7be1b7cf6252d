-- ===== src/Tests/Tap.antt =====
-- With `quit` set, a packet for a queue without a chain, and a timeout.
use mvvmm.Base.{◌≡◌, refl, ℕ, List, [], ◌∷◌}
use mvvmm.Virtio.Events.{ended}
use mvvmm.Tap.{Readiness, no_event, read_bytes, timed_read}
use mvvmm.Tap.Setup.{rx_ending}
use mvvmm.Tap.Waiting.{untouched}
use mvvmm.Virtio.Device.{Machine}
use mvvmm.Tests.Fixture.{machine, device_from}

abbrev given : List Readiness
given = read_bytes (5 ∷ 6 ∷ []) ∷ no_event ∷ []

-- The machine once the thread has passed its only chain.
abbrev passed : Machine ℕ
passed = record machine { dev = device_from 1 }

ends : rx_ending (untouched given) ≡ ended
unfolding rx_ending timed_read
ends = refl

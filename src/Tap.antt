-- ===== src/Tap.antt =====
-- The tap device (netdev.c): packets of the guest to the interface, and the thread that brings packets
-- from it. What `poll`, `read` and the flag `quit` give is an input.
pub mod Setup
pub mod Service
pub mod Waiting
use mvvmm.Base.{
  ℕ, ◌+◌, Bool, true, false, List, [], ◌∷◌, ◌++◌, ◌||◌, is_positive, if◌then◌else◌, length, take,
  splice, Outcome, done, ◌>>=◌,
}
use mvvmm.Virtio.Device.{Machine}
use mvvmm.Virtio.Net.{virtio_net_can_write_packet, virtio_net_write_packet}

-- `write_packet_to_ether`, onto the bytes that have been written to the interface, latest first; a
-- context and a buffer there are always.
unfoldable pub write_packet_to_ether : List (List ℕ) → List ℕ → ℕ → List (List ℕ)
write_packet_to_ether sent buf len = if is_positive len then take len buf ∷ sent else sent

-- `errno`, as far as it is looked at.
pub data Errno : Type 0 where
  eintr etimedout other_errno : Errno

-- What `poll` says, and `read` where it is made.
pub data Readiness : Type 0 where
  poll_failed : Errno → Readiness
  no_event : Readiness
  hung_up : Readiness
  read_failed : Errno → Readiness
  read_bytes : List ℕ → Readiness

pub data Timed : Type 0 where
  failed : Errno → Timed
  got : List ℕ → Timed

unfoldable pub timed_read : Readiness → Timed
timed_read (poll_failed e) = failed e
timed_read no_event = failed etimedout
timed_read hung_up = failed other_errno
timed_read (read_failed e) = failed e
timed_read (read_bytes bytes) = got bytes

-- `errno == EINTR || errno == ETIMEDOUT`
unfoldable pub is_retry : Errno → Bool
is_retry eintr = true
is_retry etimedout = true
is_retry other_errno = false

module _ {B : Type 0} (chain_fuel : ℕ) where
  -- A packet, where the device can take one; else it is dropped.
  unfoldable pub receive : Machine B → List ℕ → ℕ → Outcome (Machine B)
  receive s buf len = do
    can ← virtio_net_can_write_packet s
    if can then virtio_net_write_packet chain_fuel s buf len else done s

  -- The rounds of the loop, each with `quit` as it is read then, and the buffer, which keeps what longer
  -- packets have left. The second result is whether the thread has returned.
  unfoldable pub rx_loop : List (Bool × Readiness) → List ℕ → Machine B → Outcome (Machine B × Bool)
  unfolding receive timed_read is_retry
  rx_loop [] buf s = done (s, false)
  rx_loop ((quit, ready) ∷ rounds) buf s = elim (timed_read ready) [
    | failed e ↦
        let again = rx_loop rounds buf s in
        if is_retry e then if quit then done (s, true) else again else done (s, true)
    | got [] ↦ done (s, true)
    | got (b ∷ bytes) ↦
        let buf' = splice buf 0 (b ∷ bytes) in
        receive s buf' (length (b ∷ bytes)) >>= λ s'. rx_loop rounds buf' s'
  ]

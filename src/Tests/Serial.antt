-- ===== src/Tests/Serial.antt =====
-- Runs of the serial port.
use mvvmm.Base.{
  List, [], ◌∷◌, ℕ, ◌%◌, ◌^◌, ◌≡◌, ◌⊎◌, refl, true, false, [], ◌∷◌, get_or, done, arith,
}
use mvvmm.Serial.{
  Serial, Wakeup, reg, is_rx_empty, is_dlab_set, put_received, write_to_serial, handle_serial,
}
use mvvmm.Serial.Receive.{write_to_serial-read, IsStored, IsDropped, write_to_serial-keeps}
use mvvmm.Serial.Latch.{handle_serial-latch_write}

-- The receive interrupt enabled, and the line status as given.
abbrev port : ℕ → ℕ → Serial
port line status = record {
  regs = 0x41 ∷ 1 ∷ 1 ∷ line ∷ 0 ∷ status ∷ 0 ∷ 0 ∷ [];
  dl = 0 ∷ 0 ∷ [];
  events = [];
}

write_to_serial-read_example :
    (s1 s2 : Serial) × (write_to_serial [] (port 3 0x60) 0x42 ≡ done s1)
    × (is_rx_empty s1 ≡ false)
    × (handle_serial s1 0 false 0 ≡ (s2, 0x42 % 2 ^ 8))
    × (is_rx_empty s2 ≡ true)
unfolding is_rx_empty is_dlab_set
write_to_serial-read_example = write_to_serial-read [] (port 3 0x60) 0x42 0 refl refl refl

-- Two waits, each without a timeout: behind the first the port is still full, behind the second the
-- guest has read.
abbrev woken : List Wakeup
woken =
    record { timed_out = false; port = port 1 0x61 }
    ∷ record { timed_out = false; port = port 3 0x60 }
    ∷ []

write_to_serial-keeps_example :
    IsStored woken (port 3 0x61) 0x42 (put_received (port 3 0x60) 0x42)
    ⊎ IsDropped woken (port 3 0x61) (put_received (port 3 0x60) 0x42)
unfolding write_to_serial is_rx_empty
write_to_serial-keeps_example =
    write_to_serial-keeps woken (port 3 0x61) 0x42 (put_received (port 3 0x60) 0x42) refl

handle_serial-latch_write_example :
    (get_or (handle_serial (port 0x83 0x60) 1 true 0xa5).0.dl 1 0 ≡ 0xa5)
    × (reg (handle_serial (port 0x83 0x60) 1 true 0xa5).0 1 ≡ 0xa5)
unfolding is_dlab_set
handle_serial-latch_write_example =
    handle_serial-latch_write (port 0x83 0x60) 1 0xa5 (omega arith) refl refl refl

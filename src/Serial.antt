-- ===== src/Serial.antt =====
-- The serial port (serial.c): its registers, the guest's accesses and the bytes that arrive for it.
pub mod Receive
pub mod Latch
use mvvmm.Base.{
  ℕ, ◌%◌, ◌^◌, ◌-◌, Bool, true, false, ◌&&◌, ◌||◌, not, List, [], ◌∷◌, ◌==◌, if◌then◌else◌, bit_and,
  bit_or, get_or, set, Outcome, done, out_of_fuel,
}

-- What the port does to the outside: the level of interrupt line 4, a character on the standard
-- output, a signal to `rx_cond`.
pub data SerialEvent : Type 0 where
  irq_level : ℕ → SerialEvent
  put_char : ℕ → SerialEvent
  signal_rx : SerialEvent

-- `struct serial`: the 8 registers and the 2 bytes of the divisor latch, with the events so far,
-- latest first. The lock is held by every function from its first line to its last.
pub record Serial : Type 0 where
  pub regs : List ℕ
  pub dl : List ℕ
  pub events : List SerialEvent

abbrev pub reg : Serial → ℕ → ℕ
reg s i = get_or s.regs i 0

unfoldable pub write_reg : Serial → ℕ → ℕ → Serial
write_reg s offset value = record s { regs = set s.regs offset value }

unfoldable pub emit : Serial → SerialEvent → Serial
emit s e = record s { events = e ∷ s.events }

unfoldable pub clear_intr : Serial → Serial
unfolding write_reg
clear_intr s = write_reg s 2 1

unfoldable pub set_rx_intr : Serial → Serial
unfolding write_reg
set_rx_intr s = write_reg s 2 4

unfoldable pub is_rx_intr_set : Serial → Bool
is_rx_intr_set s = reg s 2 == 4

unfoldable pub set_tx_intr : Serial → Serial
unfolding write_reg
set_tx_intr s = write_reg s 2 2

unfoldable pub set_data_ready : Serial → Serial
unfolding write_reg
set_data_ready s = write_reg s 5 (bit_or (reg s 5) 1)

-- `&= ~0x01` on a byte.
unfoldable pub clear_data_ready : Serial → Serial
unfolding write_reg
clear_data_ready s = write_reg s 5 (bit_and (reg s 5) 0xfe)

unfoldable pub is_rx_empty : Serial → Bool
is_rx_empty s = bit_and (reg s 5) 1 == 0

unfoldable pub is_dlab_set : Serial → Bool
is_dlab_set s = not (bit_and (reg s 3) 0x80 == 0)

unfoldable pub is_tx_intr_enabled : Serial → Bool
is_tx_intr_enabled s = not (bit_and (reg s 1) 2 == 0)

unfoldable pub is_rx_intr_enabled : Serial → Bool
is_rx_intr_enabled s = not (bit_and (reg s 1) 1 == 0)

unfoldable pub set_irq : Serial → Serial
unfolding emit
set_irq s = emit s (irq_level 1)

unfoldable pub clear_irq : Serial → Serial
unfolding emit
clear_irq s = emit s (irq_level 0)

unfoldable pub serial_init : Serial
unfolding clear_intr
serial_init =
    clear_intr
      (record { regs = 0 ∷ 0 ∷ 0 ∷ 0 ∷ 0 ∷ 0x60 ∷ 0 ∷ 0 ∷ []; dl = 0 ∷ 0 ∷ []; events = [] })

-- A return from `pthread_cond_timedwait`: whether it is ETIMEDOUT, and the port as the guest's
-- accesses have left it meanwhile.
pub record Wakeup : Type 0 where
  pub timed_out : Bool
  pub port : Serial

-- The end of `write_to_serial`, for the character `c`.
unfoldable pub put_received : Serial → ℕ → Serial
unfolding write_reg is_rx_intr_enabled set_irq set_rx_intr set_data_ready
put_received s c =
    let s1 = write_reg s 0 (c % 2 ^ 8) in
    set_data_ready (if is_rx_intr_enabled s1 then set_irq (set_rx_intr s1) else s1)

-- The wakeups are those of its loop, in order; where they end it still waits.
unfoldable pub write_to_serial : List Wakeup → Serial → ℕ → Outcome Serial
unfolding put_received is_rx_empty
write_to_serial [] s c = if is_rx_empty s then done (put_received s c) else out_of_fuel
write_to_serial (w ∷ ws) s c =
    let rest = write_to_serial ws w.port c in
    if is_rx_empty s then done (put_received s c) else if w.timed_out then done w.port else rest

-- The port and the byte read. An access is to an offset below 8.
unfoldable pub read_reg : Serial → ℕ → Serial × ℕ
unfolding emit is_rx_intr_set is_tx_intr_enabled set_tx_intr clear_irq clear_intr clear_data_ready
read_reg s offset =
    if offset == 7
    then (s, 0)
    else if offset == 2
    then (
      if is_rx_intr_set s && is_tx_intr_enabled s then set_tx_intr s else clear_irq (clear_intr s),
      reg s 2,
    )
    else if offset == 0
    then (emit (clear_data_ready s) signal_rx, reg s 0)
    else (s, reg s offset)

-- The divisor latch: the port and `*io_data` behind the first `if` of `handle_serial`.
unfoldable pub access_latch : Serial → ℕ → Bool → ℕ → Serial × ℕ
unfolding is_dlab_set
access_latch s offset out value =
    if is_dlab_set s && (offset == 1 || offset == 0)
    then (if out
        then (record s { dl = set s.dl offset value }, value)
        else (s, get_or s.dl offset 0))
    else (s, value)

unfoldable pub transmit : Serial → ℕ → Serial
unfolding emit is_rx_intr_set is_tx_intr_enabled set_tx_intr set_irq
transmit s value =
    let s1 = emit s (put_char value) in
    if is_tx_intr_enabled s1 && not (is_rx_intr_set s1) then set_irq (set_tx_intr s1) else s1

-- The access to the offset `port - 0x3f8`, out of the guest or in, with the byte `*io_data`: the
-- port and `*io_data` afterwards.
unfoldable pub handle_serial : Serial → ℕ → Bool → ℕ → Serial × ℕ
unfolding access_latch transmit is_dlab_set write_reg read_reg
handle_serial s offset out value =
    let (s1, value1) = access_latch s offset out value in
    if out
    then (
      if offset == 0 && not (is_dlab_set s1)
          then transmit s1 value1
          else write_reg s1 offset value1,
      value1,
    )
    else read_reg s1 offset

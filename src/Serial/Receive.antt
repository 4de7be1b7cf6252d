-- ===== src/Serial/Receive.antt =====
-- The receiving side of the serial port: `write_to_serial` and the guest's reads.
use mvvmm.Base.{
  ℕ, ◌%◌, ◌^◌, ◌<◌, ◌≡◌, ◌≢◌, refl, ap, sym, ◌∙◌, ◌⊎◌, inl, inr, Bool, true, false, ◌==◌, List, [],
  ◌∷◌, ◌++◌, bit_and, bit_or, length, length-set, get_or-set_self, get_or-set_ne, done, done_inj,
  arith, if◌then◌else◌, Bool-cases,
}
use mvvmm.Base.Bits.{bit_and-one, bit_or_step, bit_and_step}
use mvvmm.Serial.{
  Serial, reg, write_reg, put_received, write_to_serial, signal_rx, Wakeup, is_rx_empty,
  is_dlab_set, handle_serial, read_reg, access_latch, set_data_ready, set_rx_intr, set_irq, emit,
  is_rx_intr_enabled, clear_data_ready,
}

reg-write_reg_self : (s : Serial) (i v : ℕ) → i < length s.regs → reg (write_reg s i v) i ≡ v
unfolding write_reg
reg-write_reg_self s i v h = get_or-set_self s.regs i v 0 h

reg-write_reg_ne : (s : Serial) (i j v : ℕ) → i ≢ j → reg (write_reg s i v) j ≡ reg s j
unfolding write_reg
reg-write_reg_ne s i j v h = get_or-set_ne s.regs i j v 0 h

length-write_reg : (s : Serial) (i v : ℕ) → length (write_reg s i v).regs ≡ length s.regs
unfolding write_reg
length-write_reg s i v = length-set s.regs i v

ready_bit : (a : ℕ) → bit_and (bit_or a 1) 1 ≡ 1
ready_bit a = omega (arith, bit_and-one (bit_or a 1), bit_or_step a 1)

cleared_bit : (a : ℕ) → bit_and (bit_and a 0xfe) 1 ≡ 0
cleared_bit a = omega (arith, bit_and-one (bit_and a 0xfe), bit_and_step a 0xfe)

-- The interrupt part of `put_received` leaves the other registers alone.
interrupt-reg :
    (s : Serial) (b : Bool) (j : ℕ)
    → 2 ≢ j
    → (reg (if b then set_irq (set_rx_intr s) else s) j ≡ reg s j)
unfolding set_irq emit set_rx_intr
interrupt-reg s true j h = reg-write_reg_ne s 2 j 4 h
interrupt-reg s false j h = refl

interrupt-length :
    (s : Serial) (b : Bool) → length (if b then set_irq (set_rx_intr s) else s).regs ≡ length s.regs
unfolding set_irq emit set_rx_intr
interrupt-length s true = length-write_reg s 2 4
interrupt-length s false = refl

put_received-regs :
    (s : Serial) (c : ℕ)
    → length s.regs ≡ 8
    → (length (put_received s c).regs ≡ 8)
      × (reg (put_received s c) 0 ≡ c % 2 ^ 8)
      × (reg (put_received s c) 3 ≡ reg s 3)
      × (reg (put_received s c) 5 ≡ bit_or (reg s 5) 1)
unfolding put_received set_data_ready
put_received-regs s c h =
    let s1 = write_reg s 0 (c % 2 ^ 8) in
    let s2 = if is_rx_intr_enabled s1 then set_irq (set_rx_intr s1) else s1 in
    let b = is_rx_intr_enabled s1 in
    let long1 = length-write_reg s 0 (c % 2 ^ 8) in
    let long2 = interrupt-length s1 b in
    let other = λ (j : ℕ) (h0 : 0 ≢ j) (h2 : 2 ≢ j).
      interrupt-reg s1 b j h2 ∙ reg-write_reg_ne s 0 j (c % 2 ^ 8) h0 in
    (
      length-write_reg s2 5 (bit_or (reg s2 5) 1) ∙ long2 ∙ long1 ∙ h,
      reg-write_reg_ne s2 5 0 (bit_or (reg s2 5) 1) (omega arith)
          ∙ interrupt-reg s1 b 0 (omega arith)
          ∙ reg-write_reg_self s 0 (c % 2 ^ 8) (omega arith),
      reg-write_reg_ne s2 5 3 (bit_or (reg s2 5) 1) (omega arith)
          ∙ other 3 (omega arith) (omega arith),
      reg-write_reg_self s2 5 (bit_or (reg s2 5) 1) (omega arith)
          ∙ ap (λ v. bit_or v 1) (other 5 (omega arith) (omega arith)),
    )

write_to_serial-empty :
    (ws : List Wakeup) (s : Serial) (c : ℕ)
    → is_rx_empty s ≡ true
    → write_to_serial ws s c ≡ done (put_received s c)
unfolding write_to_serial
write_to_serial-empty [] s c e = rw e refl
write_to_serial-empty (w ∷ ws) s c e = rw e refl

access_latch-off :
    (s : Serial) (offset v : ℕ) (out : Bool)
    → is_dlab_set s ≡ false
    → access_latch s offset out v ≡ (s, v)
unfolding access_latch
access_latch-off s offset v out e = rw e refl

is_rx_empty-bit : (s : Serial) (n : ℕ) → bit_and (reg s 5) 1 ≡ n → is_rx_empty s ≡ (n == 0)
unfolding is_rx_empty
is_rx_empty-bit s n e = rw e refl

dlab-reg : (s s' : Serial) → reg s' 3 ≡ reg s 3 → is_dlab_set s' ≡ is_dlab_set s
unfolding is_dlab_set
dlab-reg s s' e = rw e refl

handle_serial-read_data :
    (s : Serial) (v : ℕ)
    → is_dlab_set s ≡ false
    → handle_serial s 0 false v ≡ (emit (clear_data_ready s) signal_rx, reg s 0)
unfolding handle_serial read_reg
handle_serial-read_data s v e = rw (access_latch-off s 0 v false e) refl

read_data-empty :
    (s : Serial) → length s.regs ≡ 8 → is_rx_empty (emit (clear_data_ready s) signal_rx) ≡ true
unfolding emit clear_data_ready
read_data-empty s h = is_rx_empty-bit _ 0 (
    ap (λ a. bit_and a 1) (reg-write_reg_self s 5 (bit_and (reg s 5) 0xfe) (omega arith))
    ∙ cleared_bit (reg s 5))

-- Where the receiver is empty and the divisor latch is not selected, a character that arrives is
-- stored at once, the line status then says that data is ready, the guest's next read of offset 0
-- gives the character (as a byte), and the receiver is empty again.
pub write_to_serial-read :
    (ws : List Wakeup) (s : Serial) (c v : ℕ)
    → length s.regs ≡ 8
    → is_rx_empty s ≡ true
    → is_dlab_set s ≡ false
    → (s1 s2 : Serial) × (write_to_serial ws s c ≡ done s1)
      × (is_rx_empty s1 ≡ false)
      × (handle_serial s1 0 false v ≡ (s2, c % 2 ^ 8))
      × (is_rx_empty s2 ≡ true)
write_to_serial-read ws s c v h e dl =
    let s1 = put_received s c in
    let (long, stored, line, status) = put_received-regs s c h in
    (
      s1,
      emit (clear_data_ready s1) signal_rx,
      write_to_serial-empty ws s c e,
      is_rx_empty-bit s1 1 (ap (λ a. bit_and a 1) status ∙ ready_bit (reg s 5)),
      handle_serial-read_data s1 v (dlab-reg s s1 line ∙ dl)
          ∙ ap (λ b. (emit (clear_data_ready s1) signal_rx, b)) stored,
      read_data-empty s1 long,
    )

-- The port as the last of the waits `ws` has left it, `s` before the first.
abbrev pub port_behind : Serial → List Wakeup → Serial
port_behind s [] = s
port_behind s (w ∷ ws) = port_behind w.port ws

-- Each of the waits `ws` began with a character that the guest had not read, and none timed out.
abbrev pub Waited : Serial → List Wakeup → Type 0
Waited s [] = Unit {0}
Waited s (w ∷ ws) = (is_rx_empty s ≡ false) × (w.timed_out ≡ false) × Waited w.port ws

-- The waits `before` came first, and then the receiver was empty: the character is stored into the
-- port as it was then.
abbrev pub IsStored : List Wakeup → Serial → ℕ → Serial → Type 0
IsStored ws s c s' =
    (before after : List Wakeup) × (ws ≡ before ++ after)
    × Waited s before
    × (is_rx_empty (port_behind s before) ≡ true)
    × (s' ≡ put_received (port_behind s before) c)

-- The waits `before` came first, and then, the receiver still full, the wait `w` timed out: the port is
-- as `w` has left it.
abbrev pub IsDropped : List Wakeup → Serial → Serial → Type 0
IsDropped ws s s' =
    (before : List Wakeup) × (w : Wakeup) × (after : List Wakeup) × (ws ≡ before ++ w ∷ after)
    × Waited s before
    × (is_rx_empty (port_behind s before) ≡ false)
    × (w.timed_out ≡ true)
    × (s' ≡ w.port)

-- A character never overwrites one that the guest has not read: when `write_to_serial` returns, it has
-- waited as long as the receiver was full and no wait timed out; then the receiver was empty and the
-- character was stored into the port as the last wait had left it, or a wait from a full receiver
-- timed out and the port is as that wait left it, without the character.
pub write_to_serial-keeps :
    (ws : List Wakeup) (s : Serial) (c : ℕ) (s' : Serial)
    → write_to_serial ws s c ≡ done s'
    → IsStored ws s c s' ⊎ IsDropped ws s s'
unfolding write_to_serial
write_to_serial-keeps [] s c s' h = elim (Bool-cases (is_rx_empty s)) [
  | inl e ↦ inl ([], [], refl, tt, e, sym (done_inj (rw e at h)))
  | inr e ↦ cc (rw e at h)
]
write_to_serial-keeps (w ∷ ws) s c s' h = elim (Bool-cases (is_rx_empty s)) [
  | inl e ↦ inl ([], w ∷ ws, refl, tt, e, sym (done_inj (rw e at h)))
  | inr e ↦ elim (Bool-cases w.timed_out) [
    | inl t ↦ inr ([], w, ws, refl, tt, e, t, sym (done_inj (rw (e, t) at h)))
    | inr t ↦ elim (write_to_serial-keeps ws w.port c s' (rw (e, t) at h)) [
      | inl (before, after, split, waited, empty, stored) ↦
          inl (w ∷ before, after, ap (◌∷◌ w) split, (e, t, waited), empty, stored)
      | inr (before, w', after, split, waited, full, timed, same) ↦
          inr (w ∷ before, w', after, ap (◌∷◌ w) split, (e, t, waited), full, timed, same)
    ]
  ]
]

-- ===== src/Serial/Latch.antt =====
-- The divisor latch of the serial port.
use mvvmm.Base.{ℕ, zero, suc, ◌<◌, ◌≡◌, refl, true, get_or, set, length, get_or-set_self, arith}
use mvvmm.Serial.{Serial, reg, is_dlab_set, handle_serial, access_latch, write_reg}

-- The latch is selected by the registers alone.
same_line : (s s' : Serial) → s'.regs ≡ s.regs → is_dlab_set s' ≡ is_dlab_set s
unfolding is_dlab_set
same_line s s' e = rw e refl

-- With the divisor latch selected, a byte that the guest writes to offset 0 or 1 is in the latch
-- afterwards, and it is in the register of that offset (received data, interrupt enable) too.
pub handle_serial-latch_write :
    (s : Serial) (i v : ℕ)
    → i < 2
    → length s.regs ≡ 8
    → length s.dl ≡ 2
    → is_dlab_set s ≡ true
    → (get_or (handle_serial s i true v).0.dl i 0 ≡ v) × (reg (handle_serial s i true v).0 i ≡ v)
unfolding handle_serial access_latch write_reg
handle_serial-latch_write s zero v h eight two d =
    let latch = record s { dl = set s.dl 0 v } in
    rw (d, same_line s latch refl, d)
      (get_or-set_self s.dl 0 v 0 (omega arith), get_or-set_self s.regs 0 v 0 (omega arith))
handle_serial-latch_write s (suc zero) v h eight two d =
    rw d (get_or-set_self s.dl 1 v 0 (omega arith), get_or-set_self s.regs 1 v 0 (omega arith))
handle_serial-latch_write s (suc (suc i)) v h eight two d = absurd (omega arith)

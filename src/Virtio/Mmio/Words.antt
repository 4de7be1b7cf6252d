-- ===== src/Virtio/Mmio/Words.antt =====
-- The two halves of a 64-bit address register.
use mvvmm.Base.{ℕ, ◌+◌, ◌-◌, ◌*◌, ◌/◌, ◌%◌, ◌^◌, ◌<◌, ◌≡◌, ◌∙◌, ap, bit_and, arith}
use mvvmm.Base.Bits.{bit_and_high, bit_and_mask, bit_or_fields, bit_or_comm}
use mvvmm.Virtio.Mmio.{set_low32, set_high32}

high_part : (paddr : ℕ) → paddr < 2 ^ 64 → bit_and paddr (2 ^ 64 - 2 ^ 32) ≡ paddr / 2 ^ 32 * 2 ^ 32
high_part paddr h =
    let parts : paddr ≡ paddr / 2 ^ 32 * 2 ^ 32 + paddr % 2 ^ 32 = omega arith in
    ap (λ (a : ℕ). bit_and a (2 ^ 64 - 2 ^ 32)) parts
    ∙ bit_and_high 32 (paddr / 2 ^ 32) (paddr % 2 ^ 32) (2 ^ 32 - 1) (omega arith)
    ∙ omega (arith, bit_and_mask 32 (paddr / 2 ^ 32))

pub set_low32_lem :
    (paddr val : ℕ)
    → paddr < 2 ^ 64
    → val < 2 ^ 32
    → set_low32 paddr val ≡ paddr / 2 ^ 32 * 2 ^ 32 + val
unfolding set_low32
set_low32_lem paddr val h v = rw (high_part paddr h) (bit_or_fields 32 (paddr / 2 ^ 32) val v)

pub set_high32_lem : (paddr val : ℕ) → set_high32 paddr val ≡ val * 2 ^ 32 + paddr % 2 ^ 32
unfolding set_high32
set_high32_lem paddr val =
    rw (bit_or_comm (bit_and paddr 0xffff_ffff) (val * 2 ^ 32))
      (rw (bit_and_mask 32 paddr) (bit_or_fields 32 val (paddr % 2 ^ 32) (omega arith)))

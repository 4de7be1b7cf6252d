-- ===== src/Base/Bits.antt =====
-- `&` and `|` at variables: one equation for the lowest binary digit, and what follows from it for
-- masks, disjoint fields and powers of two.
use Prim.Native.Nat.{
  ℕ, zero, suc, ◌+◌, ◌-◌, ◌*◌, ◌/◌, ◌%◌, ◌^◌, ◌≤◌, ◌<◌, min, max, digits, bitwise, bit_and, bit_or,
  bit_and-bitwise, bit_or-bitwise,
}
use mathlib.Core.Path.{◌≡◌, refl, sym, ap, ◌∙◌}
use mathlib.Core.WellFounded.{Acc, WellFounded, induction}
use native.Mathlib.Nat.{le_refl, pow-suc, one-le-pow, mod_self}
use native.Mathlib.Omega.{arith}
use native.Mathlib.Decide.{ℕ_discrete}

Acc-below : (k n : ℕ) → n < k → Acc ◌<◌ n
Acc-below zero n h = elim h [ ]
Acc-below (suc k) n h = Acc.intro n (λ m hm. Acc-below k m (omega arith))

pub lt_wf : WellFounded ◌<◌
lt_wf = record { apply = λ n. Acc-below (suc n) n (omega arith) }

module _ (rest : ℕ → ℕ) (op : ℕ → ℕ → ℕ) where
  -- More rounds than the first number has digits change nothing.
  spare_rounds :
      (more rounds all x y : ℕ)
      → x ≤ rounds
      → rounds + more ≡ all
      → digits rest op all x y ≡ digits rest op rounds x y
  spare_rounds more zero zero zero y h e = refl
  spare_rounds more zero (suc all) zero y h e = refl
  spare_rounds more (suc rounds) (suc all) zero y h e = refl
  spare_rounds more (suc rounds) (suc all) (suc x) y h e =
      ap (λ high. high * 2 + op (suc x % 2) (y % 2))
        (spare_rounds more rounds all (suc x / 2) (y / 2) (omega arith) (omega arith))
  spare_rounds more (suc rounds) zero x y h e = absurd (omega arith)
  spare_rounds more zero all (suc x) y h e = elim h [ ]

  lowest_digit :
      (x y : ℕ)
      → bitwise rest op (suc x) y ≡ op (suc x % 2) (y % 2) + 2 * bitwise rest op (suc x / 2) (y / 2)
  lowest_digit x y = omega (
    arith,
    spare_rounds (x - suc x / 2) (suc x / 2) x (suc x / 2) (y / 2) (omega arith) (omega arith),
  )

pub bit_or_step : (a b : ℕ) → bit_or a b ≡ max (a % 2) (b % 2) + 2 * bit_or (a / 2) (b / 2)
bit_or_step (suc n) b = simp bit_or-bitwise (lowest_digit (λ y. y) max n b)
bit_or_step zero b = simp bit_or-bitwise (omega arith)

pub bit_and_step : (a b : ℕ) → bit_and a b ≡ min (a % 2) (b % 2) + 2 * bit_and (a / 2) (b / 2)
bit_and_step (suc n) b = simp bit_and-bitwise (lowest_digit (λ _. 0) min n b)
bit_and_step zero b = simp bit_and-bitwise (omega arith)

-- A law that holds at 0 and passes from `a / 2` to `a` holds everywhere.
pub halving_induction :
    (P : ℕ → Type 0) → P 0 → ((n : ℕ) → P (suc n / 2) → P (suc n)) → (a : ℕ) → P a
halving_induction P base next a = induction lt_wf {C = P} a go
  where
    go : (n : ℕ) → ((m : ℕ) → m < n → P m) → P n
    go zero ih = base
    go (suc n) ih = next n (ih (suc n / 2) (omega arith))

pub bit_or-zero : (a : ℕ) → bit_or a 0 ≡ a
bit_or-zero =
    halving_induction (λ a. bit_or a 0 ≡ a) refl λ n ih. omega (arith, bit_or_step (suc n) 0)

pub zero-bit_or : (a : ℕ) → bit_or 0 a ≡ a
zero-bit_or a = simp bit_or-bitwise refl

pub bit_and-zero : (a : ℕ) → bit_and a 0 ≡ 0
bit_and-zero =
    halving_induction (λ a. bit_and a 0 ≡ 0) refl λ n ih. omega (arith, bit_and_step (suc n) 0)

pub bit_and_self : (a : ℕ) → bit_and a a ≡ a
bit_and_self =
    halving_induction (λ a. bit_and a a ≡ a) refl
      λ n ih. omega (arith, bit_and_step (suc n) (suc n))

pub bit_and-le : (a b : ℕ) → bit_and a b ≤ a
bit_and-le a b =
    halving_induction (λ a. (b : ℕ) → bit_and a b ≤ a) (λ b. simp bit_and-bitwise (le_refl _))
      (λ n ih b. omega (arith, bit_and_step (suc n) b, ih (b / 2))) a b

-- One more place to the left.
shifted : (high k : ℕ) → high * 2 ^ suc k ≡ high * 2 ^ k + high * 2 ^ k
shifted high k = omega (arith, ap (λ (t : ℕ). high * t) (pow-suc 2 k))

pub bit_or_comm : (a b : ℕ) → bit_or a b ≡ bit_or b a
bit_or_comm a b =
    halving_induction (λ a. (b : ℕ) → bit_or a b ≡ bit_or b a)
      (λ b. zero-bit_or b ∙ sym (bit_or-zero b))
      (λ n ih b. omega (arith, bit_or_step (suc n) b, bit_or_step b (suc n), ih (b / 2))) a b

-- `|` of a multiple of `2 ^ k` and a number below `2 ^ k` is their sum.
pub bit_or_fields : (k high low : ℕ) → low < 2 ^ k → bit_or (high * 2 ^ k) low ≡ high * 2 ^ k + low
bit_or_fields (suc k) high low h =
    let inner = bit_or_fields k high (low / 2) (omega (arith, pow-suc 2 k)) in
    ground (arith, inner, pow-suc 2 k, shifted high k, bit_or_step (high * 2 ^ suc k) low)
bit_or_fields zero high low h = ground (arith, bit_or-zero high)

bit_and_low : (k high low : ℕ) → low < 2 ^ k → bit_and (high * 2 ^ k + low) (2 ^ k - 1) ≡ low
bit_and_low (suc k) high low h =
    let inner = bit_and_low k high (low / 2) (omega (arith, pow-suc 2 k)) in
    let step = bit_and_step (high * 2 ^ suc k + low) (2 ^ suc k - 1) in
    ground (arith, inner, pow-suc 2 k, shifted high k, step)
bit_and_low zero high low h = rw bit_and-zero (omega arith)

-- A mask of `k` low ones is the remainder by `2 ^ k`.
pub bit_and_mask : (k a : ℕ) → bit_and a (2 ^ k - 1) ≡ a % 2 ^ k
bit_and_mask k a = ground (arith, one-le-pow k 2, bit_and_low k (a / 2 ^ k) (a % 2 ^ k))

halve_power : (v : ℕ) → v % 2 ≡ 0 → bit_and v (v - 1) ≡ 0 → 0 < v → bit_and (v / 2) (v / 2 - 1) ≡ 0
halve_power v even e pos =
    let down : (v - 1) / 2 ≡ v / 2 - 1 = omega arith in
    let step = bit_and_step v (v - 1) in rw (← down) (omega arith)

odd_power : (v : ℕ) → v % 2 ≡ 1 → bit_and v (v - 1) ≡ 0 → v ≡ 1
odd_power v odd e =
    let down : (v - 1) / 2 ≡ v / 2 = omega arith in
    let step : bit_and v (v - 1) ≡ min (v % 2) ((v - 1) % 2) + 2 * bit_and (v / 2) (v / 2) =
      rw down at (bit_and_step v (v - 1)) in
    omega (arith, bit_and_self (v / 2))

-- `v & (v - 1)` is 0 at the powers of two only.
pub power_of_two : (v : ℕ) → 0 < v → bit_and v (v - 1) ≡ 0 → (k : ℕ) × (v ≡ 2 ^ k)
power_of_two v =
    induction lt_wf {C = λ v. 0 < v → bit_and v (v - 1) ≡ 0 → (k : ℕ) × (v ≡ 2 ^ k)} v go
  where
    go :
        (n : ℕ)
        → ((m : ℕ) → m < n → 0 < m → bit_and m (m - 1) ≡ 0 → (k : ℕ) × (m ≡ 2 ^ k))
        → 0 < n
        → bit_and n (n - 1) ≡ 0
        → (k : ℕ) × (n ≡ 2 ^ k)
    go n ih pos e = elim (ℕ_discrete (n % 2) 0) [
      | yes even ↦
          let (k, half) = ih (n / 2) (omega arith) (omega arith) (halve_power n even e pos) in
          (suc k, omega (arith, pow-suc 2 k))
      | no odd ↦ (0, odd_power n (omega arith) e)
    ]

-- The powers of two pass that test.
pub two_pow_test : (k : ℕ) → bit_and (2 ^ k) (2 ^ k - 1) ≡ 0
two_pow_test k = rw (bit_and_mask k (2 ^ k)) (mod_self (2 ^ k))

-- `& 1` and `& 2` pick a binary digit.
pub bit_and-one : (a : ℕ) → bit_and a 1 ≡ a % 2
bit_and-one a = bit_and_mask 1 a

pub bit_and-two : (a : ℕ) → bit_and a 2 ≡ a / 2 % 2 * 2
bit_and-two a = omega (arith, bit_and_step a 2, bit_and-one (a / 2))

-- A mask that begins at digit `k` acts on what stands from there on.
pub bit_and_high :
    (k q r m : ℕ) → r < 2 ^ k → bit_and (q * 2 ^ k + r) (m * 2 ^ k) ≡ bit_and q m * 2 ^ k
bit_and_high zero q r m h =
    let q' : q * 2 ^ 0 + r ≡ q = omega arith in
    let m' : m * 2 ^ 0 ≡ m = omega arith in rw (q', m') (omega arith)
bit_and_high (suc k) q r m h = ground (
  arith,
  bit_and_step (q * 2 ^ suc k + r) (m * 2 ^ suc k),
  shifted q k,
  shifted m k,
  shifted (bit_and q m) k,
  bit_and_high k q (r / 2) m (omega (arith, pow-suc 2 k)),
)

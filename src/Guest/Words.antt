-- ===== src/Guest/Words.antt =====
-- Little-endian lists of bytes.
use native.Mathlib.Nat.{pow-suc}
use mvvmm.Base.{ℕ, zero, suc, ◌+◌, ◌/◌, ◌^◌, ◌<◌, ◌≡◌, refl, ap, ◌∷◌, ◌++◌, arith, length}
use mvvmm.Guest.{bytes_at, le_value, le_bytes}

pub length-bytes_at : (f : ℕ → ℕ) (p n : ℕ) → length (bytes_at f p n) ≡ n
length-bytes_at f p zero = refl
length-bytes_at f p (suc n) = ap suc (length-bytes_at f (p + 1) n)

pub bytes_at-append :
    (f : ℕ → ℕ) (p m n : ℕ) → bytes_at f p (m + n) ≡ bytes_at f p m ++ bytes_at f (p + m) n
bytes_at-append f p zero n =
    let here : p + 0 ≡ p = omega arith in let all : 0 + n ≡ n = omega arith in rw (here, all)
bytes_at-append f p (suc m) n =
    let along : p + suc m ≡ p + 1 + m = omega arith in
    let count : suc m + n ≡ suc (m + n) = omega arith in
    rw (count, along) (ap (◌∷◌ (f p)) (bytes_at-append f (p + 1) m n))

pub length-le_bytes : (n v : ℕ) → length (le_bytes n v) ≡ n
length-le_bytes zero v = refl
length-le_bytes (suc n) v = ap suc (length-le_bytes n (v / 256))

-- Reading back what was written gives the number, where it fits `n` bytes.
pub le_value-le_bytes : (n v : ℕ) → v < 256 ^ n → le_value (le_bytes n v) ≡ v
le_value-le_bytes zero v h = omega arith
le_value-le_bytes (suc n) v h =
    omega (arith, pow-suc 256 n, le_value-le_bytes n (v / 256) (omega (arith, pow-suc 256 n)))

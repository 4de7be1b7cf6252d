-- ===== src/Cli/MemorySize.antt =====
-- `parse_memory_size` without machine words.
use mvvmm.Base.{
  ℕ, ◌*◌, ◌^◌, ◌<◌, ◌≡◌, refl, Option, none, some, List, [], ◌∷◌, ◌||◌, ltb, ◌==◌, if◌then◌else◌,
  arith, Bool-cases, inl, inr,
}
use mvvmm.Cli.{Scan, suffix_multiplier, scaled, parse_memory_size}

-- What a suffix stands for: nothing, or one of the letters k, m and g in either case.
unfoldable pub unit_of : List ℕ → Option ℕ
unit_of [] = some 1
unit_of (c ∷ []) =
    if (c == 0x6b) || (c == 0x4b)
    then some (2 ^ 10)
    else if (c == 0x6d) || (c == 0x4d)
    then some (2 ^ 20)
    else if (c == 0x67) || (c == 0x47)
    then some (2 ^ 30)
    else none
unit_of (c ∷ c' ∷ cs) = none

-- The product on unbounded numbers, if a `uint64_t` holds it.
unfoldable pub size_of : ℕ → Option ℕ → Option ℕ
size_of val none = none
size_of val (some u) = if ltb (val * u) (2 ^ 64) then some (val * u) else none

scaled-size_of :
    (val : ℕ) (rest : List ℕ) → val < 2 ^ 64 → scaled val rest ≡ size_of val (unit_of rest)
unfolding scaled suffix_multiplier size_of unit_of
scaled-size_of val [] h = ground arith
scaled-size_of val (c ∷ []) h = ground arith
scaled-size_of val (c ∷ c' ∷ cs) h = ground arith

-- Where `strtoull` gives a 64-bit value, `parse_memory_size` gives the value times the unit of the
-- suffix, never a wrapped product, and fails exactly where `strtoull` does, where there are no
-- digits, where the suffix is no unit, and where the product is beyond 64 bits.
pub parse_memory_size-size_of :
    (strtoull : List ℕ → Scan) (str : List ℕ)
    → (strtoull str).val < 2 ^ 64
    → parse_memory_size strtoull str ≡ (
        if (strtoull str).failed || (strtoull str).no_digits
        then none
        else size_of (strtoull str).val (unit_of (strtoull str).rest))
unfolding parse_memory_size
parse_memory_size-size_of strtoull str h = elim (Bool-cases (strtoull str).failed) [
  | inl e ↦ rw e refl
  | inr e ↦ elim (Bool-cases (strtoull str).no_digits) [
    | inl e' ↦ rw (e, e') refl
    | inr e' ↦ rw (e, e') (scaled-size_of (strtoull str).val (strtoull str).rest h)
  ]
]

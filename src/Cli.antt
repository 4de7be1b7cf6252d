-- ===== src/Cli.antt =====
-- The command line (main.c): the size of the memory. `strtoull` of the C library is a parameter.
pub mod MemorySize
pub mod Keyboard
pub mod Options
use mvvmm.Base.{
  ℕ, ◌-◌, ◌*◌, ◌/◌, ◌^◌, Bool, Option, none, some, List, [], ◌∷◌, ◌||◌, ltb, ◌==◌, if◌then◌else◌,
  u64,
}

-- A call of `strtoull`: whether `errno` is ERANGE or EINVAL, whether `endptr` is the string, the
-- value, and the characters from `endptr` on.
pub record Scan : Type 0 where
  pub failed : Bool
  pub no_digits : Bool
  pub val : ℕ
  pub rest : List ℕ

-- The suffixes by their characters; `none` is the `default` of the `switch`.
unfoldable pub suffix_multiplier : ℕ → Option ℕ
suffix_multiplier c =
    if (c == 0x6b) || (c == 0x4b)
    then some 1024
    else if (c == 0x6d) || (c == 0x4d)
    then some (1024 * 1024)
    else if (c == 0x67) || (c == 0x47)
    then some (1024 * 1024 * 1024)
    else none

-- The suffix behind the digits: the check for overflow, then the product.
unfoldable pub scaled : ℕ → List ℕ → Option ℕ
unfolding suffix_multiplier
scaled val [] = some val
scaled val (c ∷ more) = elim (suffix_multiplier c) [
  | none ↦ none
  | some multiplier ↦ elim more [
    | [] ↦ if ltb ((2 ^ 64 - 1) / multiplier) val then none else some (u64 (val * multiplier))
    | c' ∷ cs ↦ none
  ]
]

-- `*result`, or `none` for the -1.
unfoldable pub parse_memory_size : (List ℕ → Scan) → List ℕ → Option ℕ
unfolding scaled
parse_memory_size strtoull str =
    let s = strtoull str in
    if s.failed then none else if s.no_digits then none else scaled s.val s.rest

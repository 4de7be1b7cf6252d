-- ===== src/Tests/Cli.antt =====
-- A run of the parser of memory sizes.
use mvvmm.Base.{
  ℕ, ◌+◌, ◌-◌, ◌*◌, ◌≡◌, Bool, true, false, ◌&&◌, none, List, [], ◌∷◌, leb, if◌then◌else◌, ◌||◌,
  arith,
}
use mvvmm.Cli.{Scan, parse_memory_size}
use mvvmm.Cli.MemorySize.{unit_of, size_of, parse_memory_size-size_of}

-- Decimal digits, as `strtoull` reads them.
abbrev decimal : Bool → ℕ → List ℕ → Scan
decimal none_yet val [] = record { failed = false; no_digits = none_yet; val = val; rest = [] }
decimal none_yet val (c ∷ cs) =
    let more = decimal false (val * 10 + (c - 0x30)) cs in
    if leb 0x30 c && leb c 0x39
    then more
    else record { failed = false; no_digits = none_yet; val = val; rest = c ∷ cs }

-- The string 512M.
abbrev text : List ℕ
text = 0x35 ∷ 0x31 ∷ 0x32 ∷ 0x4d ∷ []

parse_memory_size-size_of_example :
    parse_memory_size (decimal true 0) text
    ≡ (if false || false then none else size_of 512 (unit_of (0x4d ∷ [])))
parse_memory_size-size_of_example = parse_memory_size-size_of (decimal true 0) text (omega arith)

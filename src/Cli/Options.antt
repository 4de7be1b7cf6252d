-- ===== src/Cli/Options.antt =====
-- `parse_opts` (main.c): the loop over the options that `getopt` finds. `strtoull` is a
-- parameter, as it is for `parse_memory_size`.
use mvvmm.Base.{
  ℕ, ◌*◌, ◌≡◌, refl, ap, sym, ◌∙◌, Bool-cases, inl, inr, Bool, false, Option, none, some, List, [],
  ◌∷◌, ◌==◌, if◌then◌else◌,
}
use mvvmm.Cli.{Scan, parse_memory_size}

abbrev pub Str : Type 0
Str = List ℕ

-- `struct cmd_opts`; `none` is NULL.
pub record CmdOpts : Type 0 where
  pub kernel_path : Option Str
  pub initrd_path : Option Str
  pub disk_path : Option Str
  pub memory_size : ℕ
  pub kernel_cmdline : Str
  pub tap_ifname : Option Str

-- What it returns, or how it ends the program.
pub data Parsed : Type 0 where
  opts : CmdOpts → Parsed
  exit_success exit_failure : Parsed

unfoldable pub exit_of : ℕ → Parsed
exit_of letter = if letter == 0x68 then exit_success else exit_failure

module _ (strtoull : Str → Scan) where
  unfoldable pub set_memory : CmdOpts → Option ℕ → Option (CmdOpts)
  set_memory o none = none
  set_memory o (some mem_size) = some (record o { memory_size = mem_size })

  -- One round of the `switch`: the letter, '?' where `getopt` reports an error, and `optarg`. `none` is a
  -- call of `exit`, for -h with success.
  unfoldable pub option : CmdOpts → ℕ → Str → Option (CmdOpts)
  unfolding set_memory
  option o letter optarg =
      if letter == 0x6b
      then some (record o { kernel_path = some optarg })
      else if letter == 0x69
      then some (record o { initrd_path = some optarg })
      else if letter == 0x64
      then some (record o { disk_path = some optarg })
      else if letter == 0x74
      then some (record o { tap_ifname = some optarg })
      else if letter == 0x6d
      then set_memory o (parse_memory_size strtoull optarg)
      else if letter == 0x61
      then some (record o { kernel_cmdline = optarg })
      else none

  -- The loop, and the checks behind it: arguments that are no options, and the path of the kernel.
  unfoldable pub parse_loop : List (ℕ × Str) → Bool → CmdOpts → Parsed
  parse_loop [] extra o = elim o.kernel_path [
    | none ↦ exit_failure
    | some path ↦ if extra then exit_failure else opts o
  ]
  parse_loop ((letter, optarg) ∷ options) extra o = elim (option o letter optarg) [
    | none ↦ exit_of letter
    | some o' ↦ parse_loop options extra o'
  ]

  -- `default_cmdline` is DEFAULT_KERNEL_CMDLINE.
  unfoldable pub parse_opts : Str → List (ℕ × Str) → Bool → Parsed
  unfolding parse_loop
  parse_opts default_cmdline options extra = parse_loop options extra (record {
    kernel_path = none;
    initrd_path = none;
    disk_path = none;
    memory_size = 1024 * 1024 * 1024;
    kernel_cmdline = default_cmdline;
    tap_ifname = none;
  })

  -- Where the program goes on, there is a kernel and no argument that is no option.
  pub parse_loop-opts :
      (options : List (ℕ × Str)) (extra : Bool) (o o' : CmdOpts)
      → parse_loop options extra o ≡ opts o'
      → (extra ≡ false) × ((path : Str) × (o'.kernel_path ≡ some path))
  unfolding parse_loop exit_of
  parse_loop-opts [] extra o o' e = ends o.kernel_path refl e
    where
      same : {a b : CmdOpts} → opts a ≡ opts b → a ≡ b
      same e = cc

      ends :
          (p : Option Str)
          → o.kernel_path ≡ p
          → elim p [ none ↦ exit_failure | some path ↦ if extra then exit_failure else opts o ]
            ≡ opts o'
          → (extra ≡ false) × ((path : Str) × (o'.kernel_path ≡ some path))
      ends none at e = cc
      ends (some path) at e = elim (Bool-cases extra) [
        | inl t ↦ absurd (no_opts (rw t at e))
        | inr f ↦ (f, (path, ap (λ (g : CmdOpts). g.kernel_path) (sym (same (rw f at e))) ∙ at))
      ]
        where
          no_opts : exit_failure ≡ opts o' → ⊥
          no_opts e = cc
  parse_loop-opts ((letter, optarg) ∷ options) extra o o' e =
      round (option o letter optarg) (λ o1 e1. parse_loop-opts options extra o1 o' e1) e
    where
      no_exit : exit_of letter ≡ opts o' → ⊥
      no_exit e = elim (Bool-cases (letter == 0x68)) [
        | inl t ↦ success_opts (rw t at e)
        | inr f ↦ failure_opts (rw f at e)
      ]
        where
          success_opts : exit_success ≡ opts o' → ⊥
          success_opts e = cc

          failure_opts : exit_failure ≡ opts o' → ⊥
          failure_opts e = cc

      round :
          (r : Option CmdOpts)
          → ((o1 : CmdOpts)
              → parse_loop options extra o1 ≡ opts o'
              → (extra ≡ false) × ((path : Str) × (o'.kernel_path ≡ some path)))
          → elim r [ none ↦ exit_of letter | some o1 ↦ parse_loop options extra o1 ] ≡ opts o'
          → (extra ≡ false) × ((path : Str) × (o'.kernel_path ≡ some path))
      round none rest e = absurd (no_exit e)
      round (some o1) rest e = rest o1 e

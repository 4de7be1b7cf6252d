-- ===== src/Base/Options.antt =====
-- What an `Option` holds.
use mathlib.Core.Path.{◌≡◌, ap, subst}
use mathlib.Core.Option.{Option, none, some}

module _ {ℓ} {A : Type ℓ} where
  pub some_inj : {a b : A} → some a ≡ some b → a ≡ b
  some_inj {a} e = ap (or_else a) e
    where
      or_else : A → Option A → A
      or_else d none = d
      or_else d (some x) = x

  pub none-some : {a : A} → none ≡ some a → ⊥
  none-some e = subst is_none e tt
    where
      is_none : Option A → Type 0
      is_none none = Unit {0}
      is_none (some x) = ⊥

  -- Of what it holds, if anything.
  abbrev pub HoldsOf {κ} : (A → Type κ) → Option A → Type κ
  HoldsOf P none = Unit {κ}
  HoldsOf P (some a) = P a

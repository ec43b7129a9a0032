-- ===== src/Base/Equality.antt =====
-- `PartialEq`: one `==` for every type that the program compares.
use Prim.Native.Nat.{ℕ}
use Prim.Native.String.{String}
use mathlib.Core.Path.{◌≡◌}
use mathlib.Core.Logic.{◌↔◌}
use mathlib.Core.Bool.{Bool, true, false}
use mathlib.Core.Option.{Option, none, some}
use native.Mathlib.Omega.{arith}
use text.Mathlib.Text.{◌==◌ as str_eq}
use text.Mathlib.TextEquality.{eq_iff}
use zyguor_agent_execution_g.Base.Tests.{nat_beq}

-- The trait, with what `derive` gives.
pub record PartialEq {ℓ} (T : Type ℓ) : Type ℓ where
  pub equals : T → T → Bool
  pub equals_iff : (left right : T) → (equals left right ≡ true) ↔ (left ≡ right)

pub nat_beq_iff : (a b : ℕ) → (nat_beq a b ≡ true) ↔ (a ≡ b)
nat_beq_iff a b = ground arith

-- `Option<T>: PartialEq`
abbrev pub option_beq {ℓ} : {A : Type ℓ} → (A → A → Bool) → Option A → Option A → Bool
option_beq f none none = true
option_beq f (some a) (some b) = f a b
option_beq f _ _ = false

-- Numbers and texts.
instance abbrev pub string_eq : PartialEq String
string_eq = record { equals_iff = eq_iff; equals = str_eq }

instance abbrev pub nat_eq : PartialEq ℕ
nat_eq = record { equals_iff = nat_beq_iff; equals = nat_beq }

-- `left == right`
infix 50 ◌==◌
abbrev pub ◌==◌ {ℓ} : {T : Type ℓ} ⦃by : PartialEq T⦄ → T → T → Bool
◌==◌ ⦃by⦄ left right = by.equals left right

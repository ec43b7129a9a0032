-- ===== src/Base/Lists.antt =====
-- Sequences measured by native numbers: what the bounded readers need of `Vec<u8>` and slices.
use Prim.Native.Nat.{ℕ, zero, suc, ◌+◌, ◌-◌, ◌≤◌, min}
use mathlib.Core.Path.{◌≡◌, refl, ap}
use mathlib.Core.List.{List, [], ◌∷◌, ◌++◌}
use native.Mathlib.Omega.{arith}

sub_zero : (n : ℕ) → suc n ≡ suc n - 0
sub_zero n = omega arith

module _ {ℓ} {A : Type ℓ} where
  abbrev pub length : List A → ℕ
  length [] = 0
  length (x ∷ xs) = suc (length xs)

  abbrev pub take : ℕ → List A → List A
  take zero xs = []
  take (suc n) [] = []
  take (suc n) (x ∷ xs) = x ∷ take n xs

  pub length-append : (xs ys : List A) → length (xs ++ ys) ≡ length xs + length ys
  length-append [] ys = omega arith
  length-append (x ∷ xs) ys = omega (arith, length-append xs ys)

  pub length-take : (n : ℕ) (xs : List A) → length (take n xs) ≡ min n (length xs)
  length-take zero xs = omega arith
  length-take (suc n) [] = omega arith
  length-take (suc n) (x ∷ xs) = omega (arith, length-take n xs)

  pub append_assoc : (p q r : List A) → (p ++ q) ++ r ≡ p ++ (q ++ r)
  append_assoc [] q r = refl
  append_assoc (x ∷ p) q r = rw (append_assoc p q r) refl

  zero_sub : (xs : List A) → 0 - suc (length xs) ≡ 0
  zero_sub xs = omega arith

  suc_sub : (n : ℕ) (xs : List A) → suc n - suc (length xs) ≡ n - length xs
  suc_sub n xs = omega arith

  -- A prefix of a concatenation, with what the first part leaves of the count.
  pub take-append :
      (n : ℕ) (xs ys : List A) → take n (xs ++ ys) ≡ take n xs ++ take (n - length xs) ys
  take-append zero [] ys = refl
  take-append zero (x ∷ xs) ys = rw (zero_sub xs)
  take-append (suc n) [] ys = ap (λ k. take k ys) (sub_zero n)
  take-append (suc n) (x ∷ xs) ys = rw (take-append n xs ys, suc_sub n xs)

  pub take-all : (n : ℕ) (xs : List A) → length xs ≤ n → take n xs ≡ xs
  take-all zero [] h = refl
  take-all zero (x ∷ xs) h = absurd (omega arith)
  take-all (suc n) [] h = refl
  take-all (suc n) (x ∷ xs) h = ap (λ rest. x ∷ rest) (take-all n xs (omega arith))

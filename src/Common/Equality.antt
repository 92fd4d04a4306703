-- ===== src/Common/Equality.antt =====
-- Equality tests for keys: `same a b` is a Boolean, and a split on it yields the equation.
use Prim.Native.Nat.{ℕ}
use mathlib.Core.Path.{◌≡◌, refl, ap₂}
use mathlib.Core.Logic.{ite, dite}
use mathlib.Core.Bool.{Bool, true, false}
use mathlib.Core.List.{List, [], ◌∷◌}
use native.Mathlib.Decide.{ℕ_discrete}
use native.Mathlib.Omega.{arith}

pub record Eq {ℓ} (A : Type ℓ) : Type ℓ where
  pub dec : Discrete A

abbrev pub same {ℓ} : {A : Type ℓ} ⦃e : Eq A⦄ → A → A → Bool
same ⦃e⦄ a b = ite (e.dec a b) true false

pub same_refl {ℓ} : {A : Type ℓ} ⦃e : Eq A⦄ (a : A) → same a a ≡ true
same_refl a = ground arith

pub eq_of_same {ℓ} : {A : Type ℓ} ⦃e : Eq A⦄ (a b : A) → same a b ≡ true → a ≡ b
eq_of_same a b h = ground arith

instance unfoldable pub nat_eq : Eq ℕ
unfolding ℕ_discrete
nat_eq = record { dec = ℕ_discrete }

list_dec {ℓ} : {A : Type ℓ} → Discrete A → Discrete (List A)
list_dec d [] [] = yes refl
list_dec d [] (b ∷ ys) = no (λ p. cc)
list_dec d (a ∷ xs) [] = no (λ p. cc)
list_dec d (a ∷ xs) (b ∷ ys) =
    dite (d a b) (λ p. dite (list_dec d xs ys) (λ q. yes (ap₂ ◌∷◌ p q)) (λ n. no (λ r. n (cc))))
      (λ n. no (λ r. n (cc)))

instance unfoldable pub list_eq {ℓ} : {A : Type ℓ} ⦃e : Eq A⦄ → Eq (List A)
unfolding list_dec
list_eq ⦃e⦄ = record { dec = list_dec e.dec }

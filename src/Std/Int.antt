-- ===== src/Std/Int.antt =====
-- `i64` values, as integers over the native numbers; the code only compares them.
use mathlib.Core.Logic.{dite}
use amail_bridge.Common.{ℕ, ap, Eq, nat_eq}

pub data ℤ : Type 0 where
  pos : ℕ → ℤ
  negsuc : ℕ → ℤ

int_dec : Discrete ℤ
int_dec (pos m) (pos n) = dite (nat_eq.dec m n) (λ p. yes (ap pos p)) (λ q. no (λ r. q (cc)))
int_dec (pos m) (negsuc n) = no (λ p. cc)
int_dec (negsuc m) (pos n) = no (λ p. cc)
int_dec (negsuc m) (negsuc n) =
    dite (nat_eq.dec m n) (λ p. yes (ap negsuc p)) (λ q. no (λ r. q (cc)))

instance unfoldable pub int_eq : Eq ℤ
unfolding int_dec
int_eq = record { dec = int_dec }

-- ===== src/Common/Action.antt =====
-- Actions that change a state and may fail, for `do` blocks, and reasoning about them step by step.
use mathlib.Core.Option.{Option, none, some}
use mathlib.Core.Bool.{Bool, true, false}
use mathlib.Core.Path.{◌≡◌, refl, subst}

abbrev pub Action {ℓ κ} : Type ℓ → Type κ → Type (ℓ ⊔ κ)
Action S A = S → Option A × S

abbrev pub then_do {ℓ κ μ} :
    {S : Type ℓ} {A : Type κ} {B : Type μ} → (A → Action S B) → Option A × S → Option B × S
then_do f (none, s) = (none, s)
then_do f (some a, s) = f a s

infixl 5 ◌>>=◌ ◌>>◌
unfoldable pub ◌>>=◌ {ℓ κ μ} :
    {S : Type ℓ} {A : Type κ} {B : Type μ} → Action S A → (A → Action S B) → Action S B
(m >>= f) s = then_do f (m s)

abbrev pub ◌>>◌ {ℓ κ μ} :
    {S : Type ℓ} {A : Type κ} {B : Type μ} → Action S A → Action S B → Action S B
m >> n = m >>= λ _. n

abbrev pub pure {ℓ κ} : {S : Type ℓ} {A : Type κ} → A → Action S A
pure a s = (some a, s)

-- `?` on a value that does not depend on the state.
abbrev pub lift {ℓ κ} : {S : Type ℓ} {A : Type κ} → Option A → Action S A
lift o s = (o, s)

abbrev pub ensure {ℓ} : {S : Type ℓ} → Bool → Action S (Unit {0})
ensure true s = (some tt, s)
ensure false s = (none, s)

-- What holds when an action succeeds.
abbrev pub OnSuccess {ℓ κ μ} : {S : Type ℓ} {A : Type κ} → (A → S → Type μ) → Option A × S → Type μ
OnSuccess P (none, s) = Unit
OnSuccess P (some a, s) = P a s

then_do-OnSuccess {ℓ κ μ ν} :
    {S : Type ℓ} {A : Type κ} {B : Type μ} (Q : A → S → Type ν) (P : B → S → Type ν)
    (f : A → Action S B)
    → ((a : A) (s : S) → Q a s → OnSuccess P (f a s))
    → (r : Option A × S) → OnSuccess Q r
    → OnSuccess P (then_do f r)
then_do-OnSuccess Q P f h (none, s) q = tt
then_do-OnSuccess Q P f h (some a, s) q = h a s q

-- A step, what it ensures, and then the rest.
pub bind-OnSuccess {ℓ κ μ ν} :
    {S : Type ℓ} {A : Type κ} {B : Type μ} (Q : A → S → Type ν) (P : B → S → Type ν)
    (m : Action S A) (f : A → Action S B) (s : S)
    → OnSuccess Q (m s)
    → ((a : A) (t : S) → Q a t → OnSuccess P (f a t))
    → OnSuccess P ((m >>= f) s)
unfolding ◌>>=◌
bind-OnSuccess Q P m f s q h = then_do-OnSuccess Q P f h (m s) q

skip_then_do {ℓ κ μ ν} :
    {S : Type ℓ} {A : Type κ} {B : Type μ} (P : B → S → Type ν) (f : A → Action S B)
    → ((a : A) (s : S) → OnSuccess P (f a s))
    → (r : Option A × S) → OnSuccess P (then_do f r)
skip_then_do P f h (none, s) = tt
skip_then_do P f h (some a, s) = h a s

-- A step that the success does not depend on.
pub skip-OnSuccess {ℓ κ μ ν} :
    {S : Type ℓ} {A : Type κ} {B : Type μ} (P : B → S → Type ν) (m : Action S A)
    (f : A → Action S B) (s : S)
    → ((a : A) (t : S) → OnSuccess P (f a t))
    → OnSuccess P ((m >>= f) s)
unfolding ◌>>=◌
skip-OnSuccess P m f s h = skip_then_do P f h (m s)

-- A property of states that an action keeps, whether it succeeds or not.
abbrev pub Keeps {ℓ κ μ} : {S : Type ℓ} {A : Type κ} → (S → Type μ) → Action S A → Type (ℓ ⊔ μ)
Keeps {S = S} P m = (s : S) → P s → P (m s).1

then_do-Keeps {ℓ κ μ ν} :
    {S : Type ℓ} {A : Type κ} {B : Type μ} (P : S → Type ν) (f : A → Action S B)
    → ((a : A) → Keeps P (f a))
    → (r : Option A × S) → P r.1
    → P (then_do f r).1
then_do-Keeps P f h (none, t) q = q
then_do-Keeps P f h (some a, t) q = h a t q

pub bind-Keeps {ℓ κ μ ν} :
    {S : Type ℓ} {A : Type κ} {B : Type μ} (P : S → Type ν) (m : Action S A) (f : A → Action S B)
    → Keeps P m
    → ((a : A) → Keeps P (f a))
    → Keeps P (m >>= f)
unfolding ◌>>=◌
bind-Keeps P m f hm hf s p = then_do-Keeps P f hf (m s) (hm s p)

pub on_success {ℓ κ μ} :
    {S : Type ℓ} {A : Type κ} (P : A → S → Type μ) (r : Option A × S) (a : A) (s : S)
    → OnSuccess P r
    → r ≡ (some a, s)
    → P a s
on_success P r a s h e = subst (OnSuccess P) e h

pub lift-OnSuccess {ℓ κ} :
    {S : Type ℓ} {A : Type κ} (o : Option A) (s : S)
    → OnSuccess (λ a t. (t ≡ s) × (o ≡ some a)) (lift o s)
lift-OnSuccess none s = tt
lift-OnSuccess (some a) s = (refl, refl)

pub ensure-OnSuccess {ℓ} :
    {S : Type ℓ} (b : Bool) (s : S) → OnSuccess (λ _ t. (t ≡ s) × (b ≡ true)) (ensure b s)
ensure-OnSuccess true s = (refl, refl)
ensure-OnSuccess false s = tt

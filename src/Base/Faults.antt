-- ===== src/Base/Faults.antt =====
-- Code that can fault: `none` is undefined behaviour of C, such as a read outside an object.
use Prim.Native.Nat.{ℕ, suc}
use native.Mathlib.Omega.{arith}
use mathlib.Core.Path.{◌≡◌, refl, subst}
use mathlib.Core.Option.{Option, none, some}
use mathlib.Core.Bool.{Bool, true, false}

infixl 5 ◌>>=◌ ◌>>◌
abbrev pub ◌>>=◌ {ℓ κ} : {A : Type ℓ} {B : Type κ} → Option A → (A → Option B) → Option B
none >>= f = none
some a >>= f = f a

abbrev pub ◌>>◌ {ℓ κ} : {A : Type ℓ} {B : Type κ} → Option A → Option B → Option B
m >> k = m >>= λ _. k

abbrev pub omap {ℓ κ} : {A : Type ℓ} {B : Type κ} → (A → B) → Option A → Option B
omap f none = none
omap f (some a) = some (f a)

abbrev pub is_some {ℓ} : {A : Type ℓ} → Option A → Bool
is_some none = false
is_some (some a) = true

pub omap-omap {ℓ κ μ} :
    {A : Type ℓ} {B : Type κ} {C : Type μ} (g : B → C) (f : A → B) (o : Option A)
    → omap g (omap f o) ≡ omap (λ a. g (f a)) o
omap-omap g f none = refl
omap-omap g f (some a) = refl

pub omap-suc_inv :
    (o : Option ℕ) (n : ℕ) → omap suc o ≡ some n → (m : ℕ) × (o ≡ some m) × (n ≡ suc m)
omap-suc_inv none n e = absurd (cc)
omap-suc_inv (some m) n e = (m, refl, ground arith)

-- What holds of a result, if there is one.
unfoldable pub Result {ℓ κ} : {A : Type ℓ} → (A → Type κ) → Option A → Type κ
Result P none = Unit
Result P (some a) = P a

pub Result-bind {ℓ κ μ} :
    {A : Type ℓ} {B : Type κ} (P : B → Type μ) (o : Option A) (f : A → Option B)
    → ((a : A) → o ≡ some a → Result P (f a))
    → Result P (o >>= f)
unfolding Result
Result-bind P none f h = tt
Result-bind P (some a) f h = h a refl

pub Result-some {ℓ κ} :
    {A : Type ℓ} (P : A → Type κ) (o : Option A) (a : A) → o ≡ some a → Result P o → P a
unfolding Result
Result-some P o a e h = subst (Result P) e h

pub Result-of {ℓ κ} : {A : Type ℓ} (P : A → Type κ) (a : A) → P a → Result P (some a)
unfolding Result
Result-of P a h = h

pub Result-none {ℓ κ} : {A : Type ℓ} (P : A → Type κ) → Result P none
unfolding Result
Result-none P = tt

-- A last step that gives a value of which `P` holds, whatever it is made of.
pub Result-last {ℓ κ μ} :
    {A : Type ℓ} {B : Type κ} (P : B → Type μ) (o : Option A) (k : A → B)
    → ((a : A) → P (k a))
    → Result P (o >>= λ a. some (k a))
Result-last P o k h = Result-bind P o (λ a. some (k a)) (λ a e. Result-of P (k a) (h a))

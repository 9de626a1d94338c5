-- ===== src/Base/Faults.antt =====
-- Executions of C code: they end with a value, or meet what the language leaves undefined (a NULL
-- dereference, an access outside an object, a cast to a struct that was not allocated).
use mathlib.Core.Path.{◌≡◌, refl, ap}
use mathlib.Core.Option.{Option, none, some}

pub data Exec {ℓ} (A : Type ℓ) : Type ℓ where
  fault : Exec A
  ret : A → Exec A

-- What follows a fault is not executed.
infixl 5 ◌>>=◌ ◌>>◌
abbrev pub ◌>>=◌ {ℓ κ} : {A : Type ℓ} {B : Type κ} → Exec A → (A → Exec B) → Exec B
fault >>= rest = fault
ret value >>= rest = rest value

abbrev pub ◌>>◌ {ℓ κ} : {A : Type ℓ} {B : Type κ} → Exec A → Exec B → Exec B
first >> rest = first >>= λ _. rest

-- A dereference: NULL faults.
abbrev pub deref {ℓ} : {A : Type ℓ} → Option A → Exec A
deref none = fault
deref (some a) = ret a

-- An execution of two parts that ends with a value passes through a value of the first.
pub >>=_ret {ℓ κ} :
    {A : Type ℓ} {B : Type κ} (first : Exec A) (rest : A → Exec B) {result : B}
    → (first >>= rest) ≡ ret result
    → (value : A) × (first ≡ ret value) × (rest value ≡ ret result)
>>=_ret fault rest e = cc
>>=_ret (ret value) rest e = (value, refl, e)

pub ret_injective {ℓ} : {A : Type ℓ} {a b : A} → ret a ≡ ret b → a ≡ b
ret_injective h = cc

pub deref-some {ℓ} : {A : Type ℓ} {o : Option A} {a : A} → deref o ≡ ret a → o ≡ some a
deref-some {o = none} h = cc
deref-some {o = some b} h = cc

-- A result of several parts, part by part.
pub ret_pair_injective {ℓ κ} :
    {A : Type ℓ} {B : Type κ} {a c : A} {b d : B}
    → ◌≡◌ {A = Exec (A × B)} (ret (a, b)) (ret (c, d))
    → (a ≡ c) × (b ≡ d)
ret_pair_injective {A = A} {B = B} h =
    let same = ret_injective h in (ap (λ (r : A × B). r.0) same, ap (λ (r : A × B). r.1) same)

pub ret_triple_injective {ℓ κ μ} :
    {A : Type ℓ} {B : Type κ} {C : Type μ} {a d : A} {b e : B} {c f : C}
    → ◌≡◌ {A = Exec (A × B × C)} (ret (a, b, c)) (ret (d, e, f))
    → (a ≡ d) × (b ≡ e) × (c ≡ f)
ret_triple_injective {A = A} {B = B} {C = C} h =
    let same = ret_injective h in
    (
      ap (λ (r : A × B × C). r.0) same,
      ap (λ (r : A × B × C). r.1) same,
      ap (λ (r : A × B × C). r.2) same,
    )

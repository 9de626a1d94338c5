-- ===== src/Base/Outcomes.antt =====
-- What holds of the value of an execution, if it ends with one.
use mathlib.Core.Path.{◌≡◌, refl, subst}
use mathlib.Core.Bool.{Bool, true, false}
use mathlib.Core.Option.{Option, none, some}
use open62541_nodeset_loader.Base.Tests.{if◌then◌else◌}
use open62541_nodeset_loader.Base.Faults.{Exec, fault, ret, ◌>>=◌, ret_injective}

unfoldable pub Ensures : {A : Type 0} → (A → Type 0) → Exec A → Type 0
Ensures {A} P e = (a : A) → e ≡ ret a → P a

pub Ensures-ret : {A : Type 0} (P : A → Type 0) (a : A) → P a → Ensures P (ret a)
unfolding Ensures
Ensures-ret P a h b e = subst P (ret_injective e) h

pub Ensures-fault : {A : Type 0} (P : A → Type 0) → Ensures P fault
unfolding Ensures
Ensures-fault P a e = cc

pub Ensures-bind :
    {A B : Type 0} (Q : A → Type 0) (P : B → Type 0) (e : Exec A) (f : A → Exec B)
    → Ensures Q e
    → ((a : A) → Q a → Ensures P (f a))
    → Ensures P (e >>= f)
unfolding Ensures
Ensures-bind Q P fault f h k b q = cc
Ensures-bind Q P (ret a) f h k b q = k a (h a refl) b q

-- Nothing is asked of the first part.
pub Ensures-rest :
    {A B : Type 0} (P : B → Type 0) (e : Exec A) (f : A → Exec B)
    → ((a : A) → Ensures P (f a))
    → Ensures P (e >>= f)
Ensures-rest P fault f k = Ensures-fault P
Ensures-rest P (ret a) f k = k a

pub Ensures-if :
    {A : Type 0} (P : A → Type 0) (b : Bool) (e1 e2 : Exec A)
    → Ensures P e1
    → Ensures P e2
    → Ensures P (if b then e1 else e2)
Ensures-if P true e1 e2 h1 h2 = h1
Ensures-if P false e1 e2 h1 h2 = h2

pub Ensures-map :
    {A : Type 0} (Q P : A → Type 0) (e : Exec A) → Ensures Q e → ((a : A) → Q a → P a) → Ensures P e
unfolding Ensures
Ensures-map Q P e h k a q = k a (h a q)

pub Ensures-value :
    {A : Type 0} (P : A → Type 0) (e : Exec A) (a : A) → Ensures P e → e ≡ ret a → P a
unfolding Ensures
Ensures-value P e a h q = h a q

pub Ensures-case :
    {A B : Type 0} (P : A → Type 0) (o : Option B) (e1 : B → Exec A) (e2 : Exec A)
    → ((b : B) → Ensures P (e1 b))
    → Ensures P e2
    → Ensures P (elim o [ some b ↦ e1 b | none ↦ e2 ])
Ensures-case P (some b) e1 e2 h1 h2 = h1 b
Ensures-case P none e1 e2 h1 h2 = h2

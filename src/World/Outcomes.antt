-- ===== src/World/Outcomes.antt =====
-- What holds of the ways in which a computation can end, with a rule for each of its forms.
use mathlib.Core.Path.{subst}
use socket_dispatcher.Prelude.{◌≡◌, refl, ◌≢◌, ◌⊎◌, inl, inr, Option, none, some}
use socket_dispatcher.World.{Halt, assertion_failed, Result, ok, halt, ◌>>=◌}

-- `H` holds of a halt, `P` of what is returned.
pub Outcome {ℓ} : {A : Type ℓ} → (Halt → Type 0) → (A → Type 0) → Result A → Type 0
Outcome H P (ok a) = P a
Outcome H P (halt h) = H h

-- A halt of any kind, and a halt that is no failed assertion.
abbrev pub AnyHalt : Halt → Type 0
AnyHalt h = Unit

abbrev pub NoAssertion : Halt → Type 0
NoAssertion h = h ≢ assertion_failed

pub Outcome-return {ℓ} :
    {A : Type ℓ} (H : Halt → Type 0) (P : A → Type 0) {a : A} → P a → Outcome H P (ok a)
unfolding Outcome
Outcome-return H P h = h

pub Outcome-halt {ℓ} :
    {A : Type ℓ} (H : Halt → Type 0) (P : A → Type 0) {e : Halt} → H e → Outcome H P (halt e)
unfolding Outcome
Outcome-halt H P h = h

pub Outcome-bind {ℓ κ} :
    {A : Type ℓ} {B : Type κ} (H : Halt → Type 0) (P : A → Type 0) (Q : B → Type 0) (m : Result A)
    (f : A → Result B)
    → Outcome H P m
    → ((a : A) → P a → Outcome H Q (f a))
    → Outcome H Q (m >>= f)
unfolding Outcome
Outcome-bind H P Q (ok a) f h k = k a h
Outcome-bind H P Q (halt e) f h k = h

pub Outcome-map {ℓ} :
    {A : Type ℓ} (H : Halt → Type 0) (P Q : A → Type 0) (m : Result A)
    → Outcome H P m
    → ((a : A) → P a → Q a)
    → Outcome H Q m
unfolding Outcome
Outcome-map H P Q (ok a) h k = k a h
Outcome-map H P Q (halt e) h k = h

pub Outcome-both {ℓ} :
    {A : Type ℓ} (H : Halt → Type 0) (P Q : A → Type 0) (m : Result A)
    → Outcome H P m
    → Outcome H Q m
    → Outcome H (λ a. P a × Q a) m
unfolding Outcome
Outcome-both H P Q (ok a) h k = (h, k)
Outcome-both H P Q (halt e) h k = h

-- Of a computation of which nothing is known, a halt of any kind is allowed.
pub Outcome-any {ℓ} : {A : Type ℓ} (m : Result A) → Outcome AnyHalt (λ _. Unit) m
unfolding Outcome
Outcome-any (ok a) = tt
Outcome-any (halt e) = tt

-- A postcondition of every return holds of one.
pub Outcome-ok {ℓ} :
    {A : Type ℓ} (H : Halt → Type 0) (P : A → Type 0) (m : Result A) {a : A}
    → Outcome H P m
    → m ≡ ok a
    → P a
unfolding Outcome
Outcome-ok H P (ok b) {a = a} h e = let same : b ≡ a = cc in subst P same h
Outcome-ok H P (halt b) h e = cc

pub Outcome-halted {ℓ} :
    {A : Type ℓ} (H : Halt → Type 0) (P : A → Type 0) (m : Result A) {e : Halt}
    → Outcome H P m
    → m ≡ halt e
    → H e
unfolding Outcome
Outcome-halted H P (ok b) h x = cc
Outcome-halted H P (halt b) {e = e} h x = let same : b ≡ e = cc in subst H same h

pub Outcome-cases {ℓ} :
    {A : Type ℓ} (H : Halt → Type 0) (P : A → Type 0) (m : Result A)
    → Outcome H P m
    → ((a : A) × (m ≡ ok a)) ⊎ ((h : Halt) × (m ≡ halt h) × H h)
unfolding Outcome
Outcome-cases H P (ok a) h = inl (a, refl)
Outcome-cases H P (halt e) h = inr (e, refl, h)

-- A choice by an optional value of which `P` holds.
pub Outcome-option {ℓ κ} :
    {A : Type ℓ} {B : Type κ} (H : Halt → Type 0) (P : Option A → Type 0) (Q : B → Type 0)
    (o : Option A) (n : Result B) (f : A → Result B)
    → P o
    → (P none → Outcome H Q n)
    → ((a : A) → P (some a) → Outcome H Q (f a))
    → Outcome H Q (elim o [ none ↦ n | some a ↦ f a ])
Outcome-option H P Q none n f h kn ks = kn h
Outcome-option H P Q (some a) n f h kn ks = ks a h

-- ===== src/Base/Exits.antt =====
-- What a call comes to: a result, or the end of the process, since LOG_FATAL calls exit(-1).

pub data Outcome {ℓ} (A : Type ℓ) : Type ℓ where
  ok : A → Outcome A
  exited : Outcome A

infixl 5 ◌>>=◌
abbrev pub ◌>>=◌ {ℓ κ} : {A : Type ℓ} {B : Type κ} → Outcome A → (A → Outcome B) → Outcome B
ok a >>= f = f a
exited >>= f = exited

-- A property of the result, if there is one.
abbrev pub IfOk {ℓ κ} : {A : Type ℓ} → (A → Type κ) → Outcome A → Type κ
IfOk P (ok a) = P a
IfOk P exited = Unit

pub IfOk-bind {ℓ κ ι} :
    {A : Type ℓ} {B : Type κ} (P : A → Type ι) (Q : B → Type ι) (m : Outcome A) (f : A → Outcome B)
    → IfOk P m
    → ((a : A) → P a → IfOk Q (f a))
    → IfOk Q (m >>= f)
IfOk-bind P Q (ok a) f h k = k a h
IfOk-bind P Q exited f h k = tt

pub IfOk-map {ℓ ι} :
    {A : Type ℓ} (P Q : A → Type ι) (m : Outcome A) → ((a : A) → P a → Q a) → IfOk P m → IfOk Q m
IfOk-map P Q (ok a) f h = f a h
IfOk-map P Q exited f h = tt

-- There is a result, and it has the property.
abbrev pub Returns {ℓ} : {A : Type ℓ} → (A → Type 0) → Outcome A → Type 0
Returns P (ok a) = P a
Returns P exited = ⊥

pub Returns-bind {ℓ κ} :
    {A : Type ℓ} {B : Type κ} (P : A → Type 0) (Q : B → Type 0) (m : Outcome A) (f : A → Outcome B)
    → Returns P m
    → ((a : A) → P a → Returns Q (f a))
    → Returns Q (m >>= f)
Returns-bind P Q (ok a) f h k = k a h
Returns-bind P Q exited f h k = absurd h

pub Returns-map {ℓ} :
    {A : Type ℓ} (P Q : A → Type 0) (m : Outcome A)
    → ((a : A) → P a → Q a)
    → Returns P m
    → Returns Q m
Returns-map P Q (ok a) f h = f a h
Returns-map P Q exited f h = absurd h

pub Returns-both {ℓ} :
    {A : Type ℓ} (P : A → Type 0) (Q : A → Type 0) (m : Outcome A)
    → Returns P m
    → IfOk Q m
    → Returns (λ a. P a × Q a) m
Returns-both P Q (ok a) p q = (p, q)
Returns-both P Q exited p q = absurd p

pub IfOk-Returns {ℓ} : {A : Type ℓ} (P : A → Type 0) (m : Outcome A) → Returns P m → IfOk P m
IfOk-Returns P (ok a) h = h
IfOk-Returns P exited h = tt

-- There is a result with the property, unless the named failure has ended the process.
abbrev pub OkUnless {ℓ} : {A : Type ℓ} → Type 0 → (A → Type 0) → Outcome A → Type 0
OkUnless E P (ok a) = P a
OkUnless E P exited = E

pub OkUnless-bind {ℓ κ} :
    {A : Type ℓ} {B : Type κ} (E : Type 0) (P : A → Type 0) (Q : B → Type 0) (m : Outcome A)
    (f : A → Outcome B)
    → OkUnless E P m
    → ((a : A) → P a → OkUnless E Q (f a))
    → OkUnless E Q (m >>= f)
OkUnless-bind E P Q (ok a) f h k = k a h
OkUnless-bind E P Q exited f h k = h

pub OkUnless-map {ℓ} :
    {A : Type ℓ} (E : Type 0) (P Q : A → Type 0) (m : Outcome A)
    → ((a : A) → P a → Q a)
    → OkUnless E P m
    → OkUnless E Q m
OkUnless-map E P Q (ok a) f h = f a h
OkUnless-map E P Q exited f h = h

pub OkUnless-Returns {ℓ} :
    {A : Type ℓ} (E : Type 0) (P : A → Type 0) (m : Outcome A) → Returns P m → OkUnless E P m
OkUnless-Returns E P (ok a) h = h
OkUnless-Returns E P exited h = absurd h

pub IfOk-OkUnless {ℓ} :
    {A : Type ℓ} (E : Type 0) (P : A → Type 0) (m : Outcome A) → OkUnless E P m → IfOk P m
IfOk-OkUnless E P (ok a) h = h
IfOk-OkUnless E P exited h = tt

pub OkUnless-because {ℓ} :
    {A : Type ℓ} (P : A → Type 0) (E E' : Type 0)
    → (E → E')
    → (m : Outcome A) → OkUnless E P m
    → OkUnless E' P m
OkUnless-because P E E' f (ok a) h = h
OkUnless-because P E E' f exited h = f h

pub OkUnless-IfOk {ℓ} :
    {A : Type ℓ} (E : Type 0) (P : A → Type 0) (m : Outcome A)
    → OkUnless E (λ a. Unit {0}) m
    → IfOk P m
    → OkUnless E P m
OkUnless-IfOk E P (ok a) h k = k
OkUnless-IfOk E P exited h k = h

pub IfOk-always {ℓ κ ι} :
    {A : Type ℓ} {B : Type κ} (Q : B → Type ι) (m : Outcome A) (f : A → B)
    → ((a : A) → Q (f a))
    → IfOk Q (m >>= λ a. ok (f a))
IfOk-always Q (ok a) f h = h a
IfOk-always Q exited f h = tt

pub IfOk-both {ℓ ι κ} :
    {A : Type ℓ} (P : A → Type ι) (Q : A → Type κ) (m : Outcome A)
    → IfOk P m
    → IfOk Q m
    → IfOk (λ a. P a × Q a) m
IfOk-both P Q (ok a) p q = (p, q)
IfOk-both P Q exited p q = tt

-- ===== src/Base/Result.antt =====
-- Calls that may raise: the exceptions of the modelled code, and the chain of calls that the
-- first of them ends.
use live_forex_volatility_tr.Base.Names.{◌≡◌, refl, subst, Bool, true, false, Option, none, some}

pub data Exception : Type 0 where
  assertion_error value_error key_error index_error connection_error response_error : Exception

pub data Result {ℓ} (A : Type ℓ) : Type ℓ where
  ok : A → Result A
  raise : Exception → Result A

-- An exception ends the chain; a result goes on to the next call.
infixl 5 ◌>>=◌
abbrev pub ◌>>=◌ {ℓ κ} : {A : Type ℓ} {B : Type κ} → Result A → (A → Result B) → Result B
raise exception >>= next = raise exception
ok result >>= next = next result

-- The chain where the first call is made for its exception only.
infixl 5 ◌>>◌
abbrev pub ◌>>◌ {ℓ κ} : {A : Type ℓ} {B : Type κ} → Result A → Result B → Result B
raise exception >> next = raise exception
ok result >> next = next

-- `if test: raise e`
abbrev pub raise_if : Bool → Exception → Result (Unit {0})
raise_if true e = raise e
raise_if false e = ok tt

abbrev pub or_raise : {A : Type 0} → Exception → Option A → Result A
or_raise e none = raise e
or_raise e (some a) = ok a

-- Where a chain returns, so did its first call.
pub >>=-eq-ok {ℓ κ} :
    {A : Type ℓ} {B : Type κ} {last : B} (first : Result A) (next : A → Result B)
    → (first >>= next) ≡ ok last
    → (a : A) × (first ≡ ok a) × (next a ≡ ok last)
>>=-eq-ok (raise exception) next returned = cc
>>=-eq-ok (ok result) next returned = (result, refl, returned)

-- The call returns, and its result satisfies the predicate.
abbrev pub Returns {ℓ} : {A : Type ℓ} → (A → Type 0) → Result A → Type 0
Returns P (ok a) = P a
Returns P (raise e) = ⊥

-- The rule for a chain of calls.
pub Returns-bind {ℓ κ} :
    {A : Type ℓ} {B : Type κ} (P : A → Type 0) (Q : B → Type 0) (m : Result A) (f : A → Result B)
    → Returns P m
    → ((a : A) → P a → Returns Q (f a))
    → Returns Q (m >>= f)
Returns-bind P Q (ok a) f h k = k a h
Returns-bind P Q (raise e) f h k = absurd h

pub Returns-ok {ℓ} :
    {A : Type ℓ} (P : A → Type 0) (m : Result A) {a : A} → Returns P m → m ≡ ok a → P a
Returns-ok P m h e = subst (Returns P) e h

pub Returns-both {ℓ} :
    {A : Type ℓ} (P Q : A → Type 0) (m : Result A)
    → Returns P m
    → Returns Q m
    → Returns (λ a. P a × Q a) m
Returns-both P Q (ok a) h k = (h, k)
Returns-both P Q (raise e) h k = h

pub Returns-weaken {ℓ} :
    {A : Type ℓ} (P Q : A → Type 0) (m : Result A)
    → ((a : A) → P a → Q a)
    → Returns P m
    → Returns Q m
Returns-weaken P Q (ok a) k h = k a h
Returns-weaken P Q (raise e) k h = h

-- If the call returns, its result satisfies the predicate.
abbrev pub Ends {ℓ} : {A : Type ℓ} → (A → Type 0) → Result A → Type 0
Ends P (ok a) = P a
Ends P (raise e) = Unit

pub Ends-bind {ℓ κ} :
    {A : Type ℓ} {B : Type κ} (P : A → Type 0) (Q : B → Type 0) (m : Result A) (f : A → Result B)
    → Ends P m
    → ((a : A) → P a → Ends Q (f a))
    → Ends Q (m >>= f)
Ends-bind P Q (ok a) f h k = k a h
Ends-bind P Q (raise e) f h k = tt

pub Ends-any {ℓ} : {A : Type ℓ} (m : Result A) → Ends (λ a. Unit {0}) m
Ends-any (ok a) = tt
Ends-any (raise e) = tt

pub Ends-weaken {ℓ} :
    {A : Type ℓ} (P Q : A → Type 0) (m : Result A) → ((a : A) → P a → Q a) → Ends P m → Ends Q m
Ends-weaken P Q (ok a) k h = k a h
Ends-weaken P Q (raise e) k h = tt

pub Returns-Ends {ℓ} :
    {A : Type ℓ} (P Q : A → Type 0) (m : Result A) → Returns P m → Ends Q m → Returns Q m
Returns-Ends P Q (ok a) h k = k
Returns-Ends P Q (raise e) h k = absurd h

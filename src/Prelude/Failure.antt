-- ===== src/Prelude/Failure.antt =====
-- Exceptions as values. An error is the exception's class with the message of the source.
use Prim.Native.String.{String}
use mathlib.Core.Path.{◌≡◌, refl}
use mathlib.Core.Bool.{Bool, true, false}
use mathlib.Core.Option.{Option, none, some}

-- `already_withdrawn` is `ProviderAlreadyWithdrawn`, a subclass of `ValueError`; `library_error` is
-- what a call outside this code raises.
pub data Error : Type 0 where
  value_error type_error timeout_error : String → Error
  provider_state_unavailable provider_state_invalid precondition_failed : String → Error
  already_withdrawn provider_state_conflict key_error library_error : Error

pub data Result {ℓ} (A : Type ℓ) : Type ℓ where
  ok : A → Result A
  raise : Error → Result A

-- What a check returns.
abbrev pub Done : Type 0
Done = Unit {0}

infixl 5 ◌>>=◌ ◌>>◌
abbrev pub ◌>>=◌ {ℓ κ} : {A : Type ℓ} {B : Type κ} → Result A → (A → Result B) → Result B
ok a >>= f = f a
raise e >>= f = raise e

abbrev pub ◌>>◌ {ℓ κ} : {A : Type ℓ} {B : Type κ} → Result A → Result B → Result B
m >> k = m >>= λ _. k

-- `if b: raise e`
abbrev pub raise_if : Bool → Error → Result Done
raise_if true e = raise e
raise_if false e = ok tt

abbrev pub or_raise {ℓ} : {A : Type ℓ} → Option A → Error → Result A
or_raise none e = raise e
or_raise (some a) e = ok a

-- `try: m; except Exception: raise e`
abbrev pub rethrow {ℓ} : {A : Type ℓ} → Result A → Error → Result A
rethrow (ok a) e = ok a
rethrow (raise _) e = raise e

-- What a sequence of two steps needs in order to return.
pub >>=-eq-ok {ℓ κ} :
    {A : Type ℓ} {B : Type κ} (step : Result A) (next : A → Result B) {out : B}
    → (step >>= next) ≡ ok out
    → (middle : A) × (step ≡ ok middle) × (next middle ≡ ok out)
>>=-eq-ok (raise _) next returned = cc
>>=-eq-ok (ok middle) next returned = (middle, refl, returned)

-- A check that is passed, and what follows it.
pub raise_if-eq-ok {ℓ} :
    {A : Type ℓ} (b : Bool) (e : Error) (k : Result A) {a : A}
    → (raise_if b e >> k) ≡ ok a
    → (b ≡ false) × (k ≡ ok a)
raise_if-eq-ok true e k h = cc
raise_if-eq-ok false e k h = (refl, h)

pub raise_if-false : (b : Bool) (e : Error) → raise_if b e ≡ ok tt → b ≡ false
raise_if-false true e h = cc
raise_if-false false e h = refl

-- A part of a computation that must have succeeded: it did, or the whole would have raised.
pub succeeded {ℓ κ} :
    {A : Type ℓ} {P : Type κ} (m : Result A)
    → ((e : Error) → m ≡ raise e → ⊥)
    → ((a : A) → m ≡ ok a → P)
    → P
succeeded (ok a) failed k = k a refl
succeeded (raise e) failed k = absurd (failed e refl)

pub present {ℓ κ} :
    {A : Type ℓ} {P : Type κ} (o : Option A) → (o ≡ none → ⊥) → ((a : A) → o ≡ some a → P) → P
present none absent k = absurd (absent refl)
present (some a) absent k = k a refl

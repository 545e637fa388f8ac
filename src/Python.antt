-- ===== src/Python.antt =====
-- What a Python call does: it returns, or it raises one of the exceptions that the program names
-- or meets.
use auto_robotic_arms.Base.{Option, none, some, ◌≡◌, ◌≢◌, refl}

pub data Exception : Type 0 where
  -- `WorkspaceEnvelopeViolation`
  envelope_violation : Exception
  -- OverflowError, ValueError or ZeroDivisionError of a float operation
  arithmetic_error : Exception
  -- `serial.SerialException`
  serial_error : Exception
  value_error attribute_error type_error unexpected_error : Exception

pub data Result {ℓ} (A : Type ℓ) : Type ℓ where
  ok : A → Result A
  err : Exception → Result A

infixl 5 ◌>>=◌
abbrev pub ◌>>=◌ {ℓ κ} : {A : Type ℓ} {B : Type κ} → Result A → (A → Result B) → Result B
err raised >>= next = err raised
ok value >>= next = next value

-- A float operation that may raise.
abbrev pub checked {ℓ} : {A : Type ℓ} → Option A → Result A
checked none = err arithmetic_error
checked (some a) = ok a

-- A chain returns only where its first part does, by what the rest makes of that value.
pub >>=-eq-ok {ℓ κ} :
    {A : Type ℓ} {B : Type κ} (first : Result A) (next : A → Result B) {result : B}
    → (first >>= next) ≡ ok result
    → (value : A) × (first ≡ ok value) × (next value ≡ ok result)
>>=-eq-ok (err raised) next returned = cc
>>=-eq-ok (ok value) next returned = (value, refl, returned)

pub ok-injective {ℓ} : {A : Type ℓ} {a b : A} → ok a ≡ ok b → a ≡ b
ok-injective e = cc

-- What every returned value of a chain satisfies.
pub >>=-returns {ℓ κ μ} :
    {A : Type ℓ} {B : Type κ} (P : B → Type μ) (m : Result A) (f : A → Result B)
    → ((a : A) → m ≡ ok a → (b : B) → f a ≡ ok b → P b)
    → (b : B) → (m >>= f) ≡ ok b
    → P b
>>=-returns P (ok a) f k b h = k a refl b h
>>=-returns P (err e) f k b h = absurd (cc)

-- A chain whose parts do not raise `e` does not raise it.
pub >>=-ne-err {ℓ κ} :
    {A : Type ℓ} {B : Type κ} (e : Exception) (m : Result A) (f : A → Result B)
    → m ≢ err e
    → ((a : A) → f a ≢ err e)
    → (m >>= f) ≢ err e
>>=-ne-err e (ok a) f hm hf = hf a
>>=-ne-err e (err d) f hm hf = λ h. hm (cc)

pub checked-ne-violation {ℓ} : {A : Type ℓ} (o : Option A) → checked o ≢ err envelope_violation
checked-ne-violation none h = cc
checked-ne-violation (some a) h = cc

pub ok-ne-err {ℓ} : {A : Type ℓ} (a : A) (e : Exception) → ok a ≢ err e
ok-ne-err a e h = cc

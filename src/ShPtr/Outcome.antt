-- ===== src/ShPtr/Outcome.antt =====
-- How an operation of src/_shwkptr.h ends, and the chaining of operations.
-- `threw`: an exception leaves the operation, in the state given. `asserted`: an `Assert` fails.
-- `terminated`: an exception meets a `noexcept`. `undefined`: freed memory is used, or a destructor
-- runs where no object is.
pub data Outcome {ℓ} (S : Type ℓ) : Type ℓ where
  done : S → Outcome S
  threw : S → Outcome S
  asserted : Outcome S
  terminated : Outcome S
  undefined : Outcome S

infixl 5 ◌>>=◌
abbrev pub ◌>>=◌ {ℓ} : {S : Type ℓ} → Outcome S → (S → Outcome S) → Outcome S
done s >>= f = f s
threw s >>= f = threw s
asserted >>= f = asserted
terminated >>= f = terminated
undefined >>= f = undefined

-- An exception that would leave a `noexcept` function ends the program.
abbrev pub no_throw {ℓ} : {S : Type ℓ} → Outcome S → Outcome S
no_throw (threw s) = terminated
no_throw o = o

-- The operation returns in a state with `P` or throws in one with `E`, and nothing else.
pub data Ends {ℓ κ} {S : Type ℓ} (P E : S → Type κ) : Outcome S → Type (ℓ ⊔ κ) where
  returns : {s : S} → P s → Ends P E (done s)
  throws : {s : S} → E s → Ends P E (threw s)

pub Ends-bind {ℓ κ} :
    {S : Type ℓ} {P E Q : S → Type κ} {o : Outcome S} {f : S → Outcome S}
    → Ends P E o
    → ((s : S) → P s → Ends Q E (f s))
    → Ends Q E (o >>= f)
Ends-bind (returns h) k = k _ h
Ends-bind (throws h) k = throws h

-- Where nothing is thrown, `noexcept` makes no difference.
pub no_throw-Ends {ℓ} :
    {S : Type ℓ} {P E : S → Type 0} {o : Outcome S} → Ends P (λ _. ⊥) o → Ends P E (no_throw o)
no_throw-Ends (returns h) = returns h
no_throw-Ends (throws h) = elim h [ ]

pub Ends-done {ℓ κ} : {S : Type ℓ} {P E : S → Type κ} {s : S} → Ends P E (done s) → P s
Ends-done (returns h) = h

pub Ends-threw {ℓ κ} : {S : Type ℓ} {P E : S → Type κ} {s : S} → Ends P E (threw s) → E s
Ends-threw (throws h) = h

pub Ends-map {ℓ κ} :
    {S : Type ℓ} {P Q E : S → Type κ} {o : Outcome S}
    → Ends P E o
    → ((s : S) → P s → Q s)
    → Ends Q E o
Ends-map (returns h) k = returns (k _ h)
Ends-map (throws h) k = throws h

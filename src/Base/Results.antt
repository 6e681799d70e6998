-- ===== src/Base/Results.antt =====
-- Exceptions as values: what a call throws is the error of its result.
use mathlib.Core.Path.{◌≡◌, refl}
use mathlib.Core.Logic.{◌⊎◌, inl, inr}
use mathlib.Core.Bool.{Bool, true, false}
use mathlib.Core.Option.{Option, none, some}
use mathlib.Core.List.{List, [], ◌∷◌}
use native.Mathlib.Omega.{arith}

-- A call that returned, or threw.
pub data Result {ε α} (E : Type ε) (A : Type α) : Type (ε ⊔ α) where
  err : E → Result E A
  ok : A → Result E A

-- `if (failed) throw e`
abbrev pub throw_if {ε} : {E : Type ε} → Bool → E → Result E (Unit {0})
throw_if false e = ok tt
throw_if true e = err e

-- A missing value is an error.
abbrev pub or_throw {ε α} : {E : Type ε} {A : Type α} → Option A → E → Result E A
or_throw (some a) e = ok a
or_throw none e = err e

-- `try { … } catch { throw e }`
abbrev pub rethrow {ε φ α} : {E : Type ε} {F : Type φ} {A : Type α} → Result E A → F → Result F A
rethrow (err _) e = err e
rethrow (ok a) e = ok a

-- What comes after a call runs if the call returned.
infixl 5 ◌>>=◌ ◌>>◌
abbrev pub ◌>>=◌ {ε α β} :
    {E : Type ε} {A : Type α} {B : Type β} (first : Result E A) (next : (returned : A) → Result E B)
    → Result E B
err thrown >>= next = err thrown
ok returned >>= next = next returned

abbrev pub ◌>>◌ {ε β} :
    {E : Type ε} {B : Type β} (check : Result E (Unit {0})) (rest : Result E B) → Result E B
check >> rest = check >>= λ done. rest

-- If all of a sequence returned, so did its first call.
pub >>=-eq-ok {ε α β} :
    {E : Type ε} {A : Type α} {B : Type β} (first : Result E A) (next : A → Result E B) {last : B}
    → (first >>= next) ≡ ok last
    → (value : A) × (first ≡ ok value) × (next value ≡ ok last)
>>=-eq-ok (err thrown) next h = cc
>>=-eq-ok (ok value) next h = (value, refl, h)

-- A call for each element, in order; the first error ends it.
unfoldable pub map_result {ε α β} :
    {E : Type ε} {A : Type α} {B : Type β} → (A → Result E B) → List A → Result E (List B)
map_result f [] = ok []
map_result f (a ∷ as') = do b ← f a; bs ← map_result f as'; ok (b ∷ bs)

pub Result-cases {ε α} :
    {E : Type ε} {A : Type α} (r : Result E A) → ((a : A) × (r ≡ ok a)) ⊎ ((e : E) × (r ≡ err e))
Result-cases (err e) = inr (e, refl)
Result-cases (ok a) = inl (a, refl)

-- A guard that was passed.
pub throw_if-eq-ok {ε} : {E : Type ε} (b : Bool) (e : E) → throw_if b e ≡ ok tt → b ≡ false
throw_if-eq-ok false e h = refl
throw_if-eq-ok true e h = cc

-- A sequence that returned passed its first guard, or read its first value.
module _ {ε α} {E : Type ε} {A : Type α} where
  pub past_guard :
      (b : Bool) (e : E) (rest : Result E A) {a : A}
      → (throw_if b e >> rest) ≡ ok a
      → (b ≡ false) × (rest ≡ ok a)
  past_guard false e rest h = (refl, h)
  past_guard true e rest h = cc

  pub past_read {β} :
      {B : Type β} (o : Option B) (e : E) (next : B → Result E A) {a : A}
      → (or_throw o e >>= next) ≡ ok a
      → (b : B) × (o ≡ some b) × (next b ≡ ok a)
  past_read none e next h = cc
  past_read (some b) e next h = (b, refl, h)

pub ok-injective {ε α} :
    {E : Type ε} {A : Type α} (a b : A) → ◌≡◌ {A = Result E A} (ok a) (ok b) → a ≡ b
ok-injective a b h = ground (arith, h)

-- ===== src/Prelude/Results.antt =====
-- Code that may raise returns a `Result`.
use mathlib.Core.Path.{◌≡◌, refl}
use mathlib.Core.Logic.{◌⊎◌, inl, inr}
use mathlib.Core.Bool.{Bool, true, false}
use hot_mem.Prelude.Tests.{if◌then◌else◌}

pub data Result (E A : Type 0) : Type 0 where
  ok : A → Result E A
  err : E → Result E A

-- What follows a call runs only if the call returned.
infixl 5 ◌>>=◌ ◌>>◌
abbrev pub ◌>>=◌ : {E A B : Type 0} → Result E A → (A → Result E B) → Result E B
ok value >>= next = next value
err raised >>= next = err raised

abbrev pub ◌>>◌ : {E B : Type 0} → Result E (Unit {0}) → Result E B → Result E B
call >> next = call >>= λ done. next

-- `if b: raise e`
abbrev pub raise_if : {E : Type 0} → Bool → E → Result E (Unit {0})
raise_if test raised = if test then err raised else ok tt

-- A block that returns has run its first call to the end.
pub >>=-eq-ok :
    {A B E : Type 0} (call : Result E A) (next : A → Result E B) {result : B}
    → (call >>= next) ≡ ok result
    → (value : A) × (call ≡ ok value) × (next value ≡ ok result)
>>=-eq-ok (err raised) next h = cc
>>=-eq-ok (ok value) next h = (value, refl, h)

-- A guard that let the code go on was false.
pub raise_if-eq-ok :
    {E A : Type 0} (b : Bool) (e : E) (m : Result E A) {a : A}
    → (raise_if b e >> m) ≡ ok a
    → (b ≡ false) × (m ≡ ok a)
raise_if-eq-ok true e m h = cc
raise_if-eq-ok false e m h = (refl, h)

pub ok-injective : {E A : Type 0} {a b : A} → let m : Result E A = ok a in m ≡ ok b → b ≡ a
ok-injective h = cc

pub >>-eq-ok :
    {E A : Type 0} (m : Result E (Unit {0})) (k : Result E A) {a : A}
    → (m >> k) ≡ ok a
    → (m ≡ ok tt) × (k ≡ ok a)
>>-eq-ok (ok tt) k h = (refl, h)
>>-eq-ok (err e) k h = cc

pub Result-cases :
    {E A : Type 0} (m : Result E A) → ((e : E) × (m ≡ err e)) ⊎ ((a : A) × (m ≡ ok a))
Result-cases (err e) = inl (e, refl)
Result-cases (ok a) = inr (a, refl)

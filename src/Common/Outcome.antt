-- ===== src/Common/Outcome.antt =====
-- What a call that may throw comes to, and the sequence of such calls.
use mathlib.Core.Path.{◌≡◌, refl}
use mathlib.Core.Logic.{◌⊎◌, inl, inr}

pub data Outcome (E A : Type 0) : Type 0 where
  returned : A → Outcome E A
  thrown : E → Outcome E A

infixl 5 ◌>>=◌
abbrev pub ◌>>=◌ : {E A B : Type 0} → Outcome E A → (A → Outcome E B) → Outcome E B
thrown x >>= next = thrown x
returned a >>= next = next a

infixl 5 ◌>>◌
abbrev pub ◌>>◌ : {E B : Type 0} → Outcome E (Unit {0}) → Outcome E B → Outcome E B
thrown x >> next = thrown x
returned done >> next = next

-- A sequence that returned is one whose parts returned.
pub >>=-returned :
    {E A B : Type 0} (call : Outcome E A) (next : A → Outcome E B) {result : B}
    → (call >>= next) ≡ returned result
    → (a : A) × (call ≡ returned a) × (next a ≡ returned result)
>>=-returned (thrown x) next h = cc
>>=-returned (returned a) next h = (a, refl, h)

pub Outcome-cases :
    {E A : Type 0} (o : Outcome E A) → ((a : A) × (o ≡ returned a)) ⊎ ((e : E) × (o ≡ thrown e))
Outcome-cases (returned a) = inl (a, refl)
Outcome-cases (thrown e) = inr (e, refl)

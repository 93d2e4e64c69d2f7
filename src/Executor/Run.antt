-- ===== src/Executor/Run.antt =====
-- What a call does before it ends, in order, and what it comes to.
use secure_openclaw_poc.Common.{List, ◌++◌, [], ◌∷◌}
use secure_openclaw_poc.Common.Outcome.{Outcome, returned, thrown}

pub record Run (V E A : Type 0) : Type 0 where
  pub events : List V
  pub outcome : Outcome E A

abbrev pub give : {V E A : Type 0} → A → Run V E A
give a = record { events = []; outcome = returned a }

abbrev pub fail : {V E A : Type 0} → E → Run V E A
fail e = record { events = []; outcome = thrown e }

abbrev pub emit : {V E : Type 0} → V → Run V E (Unit {0})
emit v = record { events = v ∷ []; outcome = returned tt }

-- `before` was done already.
abbrev pub continue :
    {V E A B : Type 0} → (before : List V) → Outcome E A → (A → Run V E B) → Run V E B
continue before (returned a) next = record {
  events = before ++ (next a).events;
  outcome = (next a).outcome;
}
continue before (thrown e) next = record { events = before; outcome = thrown e }

infixl 5 ◌>>=◌
abbrev pub ◌>>=◌ : {V E A B : Type 0} → Run V E A → (A → Run V E B) → Run V E B
m >>= next = continue m.events m.outcome next

infixl 5 ◌>>◌
abbrev pub ◌>>◌ : {V E B : Type 0} → Run V E (Unit {0}) → Run V E B → Run V E B
m >> next = continue m.events m.outcome (λ done. next)

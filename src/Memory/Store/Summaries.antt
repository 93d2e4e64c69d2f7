-- ===== src/Memory/Store/Summaries.antt =====
-- What a summary that was written leaves.

use secure_openclaw_poc.Common.{
  ◌++◌, Bool, List, Option, String, [], any, ap, arith, none, refl, some, true, ◌||◌, ℕ, ◌∷◌, ◌≡◌,
}
use secure_openclaw_poc.Memory.Schema.{CreateSummary, fits_summary}
use secure_openclaw_poc.Memory.Store.{
  Call, Database, Env, Error, MemoryStore, closed, insert_summary, write_summary, write_summary_in,
  returned, Outcome, thrown,
}

pub any-append {ℓ} :
    {A : Type ℓ} (p : A → Bool) (xs : List A) (x : A) → any p (xs ++ x ∷ []) ≡ (any p xs || p x)
any-append p [] x = ground arith
any-append p (y ∷ xs) x = ground (arith, any-append p xs x)

module _ (env : Env) where
  abbrev pub Written :
      MemoryStore
      → CreateSummary
      → (id : String) (now : ℕ) → (x : String) (s' : MemoryStore) → Type 0
  Written s i id now x s' =
      (d : Database) × (s.db ≡ some d)
      × (s' ≡ record s { db = some (insert_summary env d i id now) })
      × (x ≡ id)
      × (fits_summary env.is_uuid i ≡ true)

  write_summary_in-Written :
      (s : MemoryStore) (o : Option Database) (i : CreateSummary) (id : String) (now : ℕ)
      (x : String) (s' : MemoryStore)
      → s.db ≡ o
      → write_summary_in env s o i id now ≡ (returned x, s')
      → Written s i id now x s'
  unfolding write_summary_in
  write_summary_in-Written s none i id now x s' e h =
      let same : ◌≡◌ {A = Outcome Error String} (thrown closed) (returned x) =
        ap (λ (r : Call String). r.0) h in
      cc
  write_summary_in-Written s (some d) i id now x s' e h =
      (d, e, ground (arith, h), ground (arith, h), ground (arith, h))

  pub write_summary-Written :
      (s : MemoryStore) (i : CreateSummary) (id : String) (now : ℕ) (x : String) (s' : MemoryStore)
      → write_summary env s i id now ≡ (returned x, s')
      → Written s i id now x s'
  unfolding write_summary
  write_summary-Written s i id now x s' h = write_summary_in-Written s s.db i id now x s' refl h

-- ===== src/Memory/Store/History.antt =====
-- Histories of calls that change a memory store.
use secure_openclaw_poc.Common.{List, Option, some, none, String, ℕ, ◌+◌, ◌-◌, [], ◌∷◌, Bool}
use secure_openclaw_poc.Memory.Dates.{byte_length}
use secure_openclaw_poc.Memory.Schema.{ObservationInput, CreateSummary}
use secure_openclaw_poc.Memory.Store.{
  Env, MemoryStore, Database, Observation, Summary, observe, observe_with_embedding, write_summary,
  prune_observations, summary_bytes, prune, close,
}

-- A call with the random id and the instant that it gets, and whether its embedding works.
pub data Operation : Type 0 where
  observing : ObservationInput → (id : String) (now : ℕ) → Operation
  embedding : ObservationInput → (id : String) (now : ℕ) (works : Bool) → Operation
  summarizing : CreateSummary → (id : String) (now : ℕ) → Operation
  pruning : (retention_days now : ℕ) → Operation
  closing : Operation

unfoldable pub observation_bytes : List Observation → ℕ
observation_bytes [] = 0
observation_bytes (o ∷ os) = byte_length o.input.content + observation_bytes os

module _ (env : Env) where
  unfoldable pub summaries_bytes : List Summary → ℕ
  summaries_bytes [] = 0
  summaries_bytes (m ∷ ms) = summary_bytes env m.input + summaries_bytes ms

  unfoldable pub apply : MemoryStore → Operation → MemoryStore
  apply s (observing i id now) = (observe env s i id now).1
  apply s (embedding i id now works) = (observe_with_embedding env s i id now works).1
  apply s (summarizing i id now) = (write_summary env s i id now).1
  apply s (pruning days now) = (prune_observations env s days now).1
  apply s closing = close s

  -- The bytes of the contents that a call removes.
  unfoldable pub pruned_in : Option Database → (retention_days now : ℕ) → ℕ
  pruned_in none days now = 0
  pruned_in (some d) days now =
      observation_bytes d.observations - observation_bytes (prune env d days now).observations

  unfoldable pub pruned : MemoryStore → Operation → ℕ
  unfolding pruned_in
  pruned s (pruning days now) = pruned_in s.db days now
  pruned s _ = 0

  unfoldable pub run : MemoryStore → List Operation → MemoryStore
  unfolding apply
  run s [] = s
  run s (o ∷ os) = run (apply s o) os

  unfoldable pub pruned_all : MemoryStore → List Operation → ℕ
  unfolding apply pruned
  pruned_all s [] = 0
  pruned_all s (o ∷ os) = pruned s o + pruned_all (apply s o) os

-- ===== src/Memory/Schema.antt =====
-- packages/memory/src/schema.ts and validator.ts. An input has the types that its schema names; what
-- the schemas ask of lengths and numbers is tested here. `is_uuid` is zod's test of an identifier.
use secure_openclaw_poc.Common.{
  Text, List, [], Bool, true, Option, some, none, String, ℕ, leb, length, ◌&&◌, ◌||◌, codes,
  text_eq, trim, get_or, if◌then◌else◌, any, not,
}

pub data ObservationType : Type 0 where
  tool_call learning error decision context : ObservationType

pub data Source : Type 0 where
  developer agent : Source

pub data Scope : Type 0 where
  session daily weekly : Scope

-- What a caller gives: a field with a default may be missing.
pub record ObservationInput : Type 0 where
  pub project : Text
  pub session_id : Text
  pub agent_id : Option Text
  pub source : Source
  pub type : ObservationType
  pub title : Text
  pub content : Text
  pub concepts : Option (List Text)
  pub files_involved : Option (List Text)

pub record CreateObservation : Type 0 where
  pub project : Text
  pub session_id : Text
  pub agent_id : Text
  pub source : Source
  pub type : ObservationType
  pub title : Text
  pub content : Text
  pub concepts : List Text
  pub files_involved : List Text

pub record CreateSummary : Type 0 where
  pub project : Text
  pub source : Source
  pub scope : Scope
  pub period_start : Text
  pub period_end : Text
  pub title : Text
  pub investigated : List Text
  pub learned : List Text
  pub completed : List Text
  pub next_steps : List Text
  pub observation_ids : List String

-- `limit` and `offset` with their defaults.
pub record SearchQuery : Type 0 where
  pub query : Option Text
  pub project : Option Text
  pub agent_id : Option Text
  pub type : Option ObservationType
  pub source : Option Source
  pub from_date : Option Text
  pub to_date : Option Text
  pub limit : ℕ
  pub offset : ℕ

-- `z.string().min(least).max(most)`.
abbrev pub has_length : (least most : ℕ) → Text → Bool
has_length least most t = leb least (length t) && leb (length t) most

-- `z.array(z.string().max(most)).max(count)`.
abbrev pub has_items : (count most : ℕ) → List Text → Bool
has_items count most ts = leb (length ts) count && not (any (λ t. not (has_length 0 most t)) ts)

abbrev pub with_defaults : ObservationInput → CreateObservation
with_defaults i = record {
  project = i.project;
  session_id = i.session_id;
  agent_id = get_or i.agent_id (codes "claude-code");
  source = i.source;
  type = i.type;
  title = i.title;
  content = i.content;
  concepts = get_or i.concepts [];
  files_involved = get_or i.files_involved [];
}

unfoldable pub fits_observation : CreateObservation → Bool
fits_observation o =
    has_length 1 500 o.project
    && (has_length 1 200 o.session_id
        && (has_length 1 200 o.agent_id
            && (has_length 1 200 o.title
                && (has_length 1 10240 o.content
                    && (has_items 50 100 o.concepts && has_items 100 500 o.files_involved)))))

unfoldable pub fits_summary : (is_uuid : String → Bool) → CreateSummary → Bool
fits_summary is_uuid s =
    has_length 1 500 s.project
    && (has_length 1 200 s.title
        && (has_items 20 5120 s.investigated
            && (has_items 20 5120 s.learned
                && (has_items 20 5120 s.completed
                    && (has_items 20 5120 s.next_steps
                        && not (any (λ id. not (is_uuid id)) s.observation_ids))))))

-- `max(most).optional()`.
abbrev pub fits_optional : (most : ℕ) → Option Text → Bool
fits_optional most none = true
fits_optional most (some t) = has_length 0 most t

unfoldable pub fits_query : SearchQuery → Bool
fits_query q =
    fits_optional 1000 q.query
    && (fits_optional 500 q.project
        && (fits_optional 200 q.agent_id && (leb 1 q.limit && leb q.limit 100)))

pub data ValidationCode : Type 0 where
  schema_invalid content_only_sensitive : ValidationCode

pub data Validation : Type 0 where
  valid : (sanitized : CreateObservation) → Validation
  invalid : ValidationCode → Validation

abbrev pub only_sensitive : Text → Bool
only_sensitive content =
    let stripped = trim content in
    text_eq stripped (codes "[REDACTED]") || text_eq stripped (codes "[PII_REDACTED]")

abbrev pub sanitize : (redact_all : Text → Text) → CreateObservation → CreateObservation
sanitize redact_all o = record o { content = redact_all o.content; title = redact_all o.title }

unfoldable pub validate_parsed : (redact_all : Text → Text) → CreateObservation → Validation
unfolding fits_observation
validate_parsed redact_all o =
    if not (fits_observation o)
    then invalid schema_invalid
    else if only_sensitive (redact_all o.content)
    then invalid content_only_sensitive
    else valid (sanitize redact_all o)

unfoldable pub validate_observation : (redact_all : Text → Text) → ObservationInput → Validation
unfolding validate_parsed
validate_observation redact_all i = validate_parsed redact_all (with_defaults i)

-- ===== src/Policy/Classifier/Approval.antt =====
-- What the policy approves without a question.
use secure_openclaw_poc.Common.{
  All, Bool, Option, Text, [], codes, false, some, str_eq, trim, true, ◌↔◌, ◌≡◌, ◌⊎◌, inl, inr,
  refl, sym, ◌∙◌,
}
use secure_openclaw_poc.Types.{
  dangerous, write_irreversible, ActionCategory, ActionManifest, SentinelConfig, write,
}
use secure_openclaw_poc.Types.Json.{Json, lookup}
use secure_openclaw_poc.Policy.Classifier.{
  category_of, category_to_decision, classify, auto_approve, read, confirm, classify_bash_command,
}
use secure_openclaw_poc.Policy.BashParser.Signals.{has_redirect, has_pipe_to_shell}
use secure_openclaw_poc.Policy.BashParser.Worst.{stages}
use secure_openclaw_poc.Policy.BashParser.Reading.{IsQuiet, RunsRead, classify_bash_command-read}

category_to_decision_lem :
    (c : ActionCategory) (auto : Bool)
    → (((category_to_decision c auto).action ≡ auto_approve)
        ↔ (((category_to_decision c auto).category ≡ read) × (auto ≡ true)))
      × (((category_to_decision c auto).action ≡ auto_approve)
          ⊎ ((category_to_decision c auto).action ≡ confirm))
category_to_decision_lem read true = (((λ h. (refl, refl)), (λ h. refl)), inl refl)
category_to_decision_lem read false = (((λ h. cc), (λ h. cc)), inr refl)
category_to_decision_lem write auto = (((λ h. cc), (λ h. cc)), inr refl)
category_to_decision_lem write_irreversible auto = (((λ h. cc), (λ h. cc)), inr refl)
category_to_decision_lem dangerous auto = (((λ h. cc), (λ h. cc)), inr refl)

category_to_decision-category :
    (c : ActionCategory) (auto : Bool) → (category_to_decision c auto).category ≡ c
category_to_decision-category read true = refl
category_to_decision-category read false = refl
category_to_decision-category write auto = refl
category_to_decision-category write_irreversible auto = refl
category_to_decision-category dangerous auto = refl

module _ (regexp_test : (pattern text : Text) → Option Bool) where
  category_of_bash :
      (m : ActionManifest) (config : SentinelConfig) (command : Text)
      → str_eq m.tool "bash" ≡ true
      → lookup (codes "command") m.parameters ≡ some (Json.text command)
      → category_of regexp_test m config ≡ classify_bash_command command
  category_of_bash m config command is_bash has_command = rw (is_bash, has_command)

  -- A shell command that is approved without a question sends nothing into a shell, redirects nothing,
  -- and each of its stages is blank or runs a command of the lists of read commands without a sign of
  -- danger.
  pub classify-bash_approved :
      (m : ActionManifest) (config : SentinelConfig) (command : Text)
      → str_eq m.tool "bash" ≡ true
      → lookup (codes "command") m.parameters ≡ some (Json.text command)
      → (classify regexp_test m config).action ≡ auto_approve
      → (has_pipe_to_shell (trim command) ≡ false)
        × ((has_redirect (trim command) ≡ false)
            × All (λ s. (trim s ≡ []) ⊎ (IsQuiet (trim s) × RunsRead (trim s))) (stages command))
  unfolding classify
  classify-bash_approved m config command is_bash has_command approved =
      let decided =
        (category_to_decision_lem (category_of regexp_test m config)
            config.auto_approve_read_ops).0.0
          approved in
      classify_bash_command-read command (
        sym (category_of_bash m config command is_bash has_command)
        ∙ sym (
            category_to_decision-category (category_of regexp_test m config)
              config.auto_approve_read_ops)
        ∙ decided.0)

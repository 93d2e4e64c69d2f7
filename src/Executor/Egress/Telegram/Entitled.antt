-- ===== src/Executor/Egress/Telegram/Entitled.antt =====
-- Which updates settle a confirmation, and what the agent sees of them.

use secure_openclaw_poc.Common.{
  All, Bool, List, Option, Text, [], codes, if◌then◌else◌, false, none, some, split_on, starts_with,
  text_eq, true, ◌∷◌, ◌≡◌, ◌⊎◌,
}
use secure_openclaw_poc.Executor.Egress.Telegram.{
  Action, data_text, Step, CallbackQuery, Intercepted, TelegramInterceptor, TelegramUpdate,
  acknowledges, passed, resolves, stub,
}

abbrev pub IsIn : TelegramUpdate → List TelegramUpdate → Type 0
IsIn u [] = ⊥
IsIn u (v ∷ vs) = (u ≡ v) ⊎ IsIn u vs

abbrev pub word : Bool → Text
word approved = codes (if approved then "approve" else "reject")

module _ {S : Type 0} (i : TelegramInterceptor S) where
  -- The update is a callback from an authorized chat that names the confirmation and the answer.
  pub record Entitles (u : TelegramUpdate) (manifest_id : Text) (approved : Bool) : Type 0 where
    pub query : CallbackQuery
    pub chat_id : Text
    pub callback : u.callback_query ≡ some query
    pub chat : query.chat_id ≡ some chat_id
    pub authorized : i.is_authorized_chat chat_id ≡ true
    pub answer :
        (start : Text) × (query.callback_data ≡ data_text start)
        × (starts_with start (codes "confirm:") ≡ true)
        × (head : Text) × (last : Text) × (split_on 58 start ≡ head ∷ manifest_id ∷ last ∷ [])
        × (text_eq last (word approved) ≡ true)

  abbrev pub IsEntitled : (TelegramUpdate → Type 0) → Action → Type 0
  IsEntitled From (resolves manifest_id approved) =
      (u : TelegramUpdate) × From u × Entitles u manifest_id approved
  IsEntitled From (acknowledges id text show_alert) = Unit

  -- No confirmation is hidden in what is passed on.
  abbrev pub IsNoAnswer : Option CallbackQuery → Type 0
  IsNoAnswer none = Unit
  IsNoAnswer (some q) =
      (t : Text) → q.callback_data ≡ data_text t → starts_with t (codes "confirm:") ≡ false

  -- Of what is done at one update, and of what takes its place.
  record IsHandled (u : TelegramUpdate) (did : List Action) (place : Intercepted) : Type 0 where
    entitled : All (IsEntitled (λ v. u ≡ v)) did
    shown : (place ≡ stub u.update_id) ⊎ ((place ≡ passed u) × IsNoAnswer u.callback_query)

  abbrev Handled : TelegramUpdate → Step S → Type 0
  Handled u one = IsHandled u one.1.0 one.1.1

  -- Of what the agent sees: each update, or its bare id in its place.
  abbrev pub AreShown : List TelegramUpdate → List Intercepted → Type 0
  AreShown [] [] = Unit
  AreShown [] (p ∷ ps) = ⊥
  AreShown (u ∷ us) [] = ⊥
  AreShown (u ∷ us) (p ∷ ps) =
      ((p ≡ stub u.update_id) ⊎ ((p ≡ passed u) × IsNoAnswer u.callback_query)) × AreShown us ps

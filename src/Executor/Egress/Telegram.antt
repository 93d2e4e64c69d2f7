-- ===== src/Executor/Egress/Telegram.antt =====
-- interceptTelegramUpdates of packages/executor/src/egress-proxy.ts. The confirmations are a state of any
-- type, on which `resolve_confirmation` is an operation.
pub mod Entitled
use secure_openclaw_poc.Common.{
  ◌++◌, Bool, List, Option, String, Text, [], codes, if◌then◌else◌, false, none, not, some,
  split_on, starts_with, text_eq, true, ℕ, ◌∷◌,
}
use secure_openclaw_poc.Types.Json.{Json}

-- The data of a callback as it was read: absent, a text, or a JSON value that is not a text.
pub data CallbackData : Type 0 where
  no_data not_text : CallbackData
  data_text : Text → CallbackData

-- `chat_id` is the number of the chat in decimal, which is negative for a group.
pub record CallbackQuery : Type 0 where
  pub id : Text
  pub callback_data : CallbackData
  pub chat_id : Option Text

-- An update, with the JSON that it was read from.
pub record TelegramUpdate : Type 0 where
  pub update_id : ℕ
  pub callback_query : Option CallbackQuery
  pub original : Json

-- What stands in the place of an update: the update itself, or its bare id.
pub data Intercepted : Type 0 where
  passed : TelegramUpdate → Intercepted
  stub : (update_id : ℕ) → Intercepted

pub data Action : Type 0 where
  resolves : (manifest_id : Text) (approved : Bool) → Action
  acknowledges : (callback_query_id text : Text) (show_alert : Bool) → Action

-- `resolve_confirmation` is the one of server.ts, which does not throw.
pub record TelegramInterceptor (S : Type 0) : Type 0 where
  pub is_authorized_chat : Text → Bool
  pub resolve_confirmation : S → (manifest_id : Text) (approved : Bool) → S × Bool

-- The confirmations after an update, what was done, and what takes its place.
abbrev pub Step : Type 0 → Type 0
Step S = S × (List Action × Intercepted)

module _ {S : Type 0} where
  abbrev pub answered :
      (update_id : ℕ) (id : Text) (approved : Bool) → (manifest_id : Text) → S × Bool → Step S
  answered update_id id approved manifest_id (s, true) = (
    s,
    (
      resolves manifest_id approved
          ∷ acknowledges id (codes (if approved then "Approved" else "Rejected")) false
          ∷ [],
      stub update_id,
    ),
  )
  answered update_id id approved manifest_id (s, false) = (
    s,
    (
      resolves manifest_id approved
          ∷ acknowledges id (codes "Action not found (may have timed out)") true
          ∷ [],
      stub update_id,
    ),
  )

  abbrev pub rejected : S → (update_id : ℕ) (id : Text) → (why : String) → Step S
  rejected s update_id id why = (s, (acknowledges id (codes why) true ∷ [], stub update_id))

  abbrev pub with_parts :
      TelegramInterceptor S → S → (update_id : ℕ) (id : Text) → (parts : List Text) → Step S
  with_parts i s update_id id (word ∷ manifest_id ∷ action ∷ []) =
      if text_eq action (codes "approve")
      then answered update_id id true manifest_id (i.resolve_confirmation s manifest_id true)
      else if text_eq action (codes "reject")
      then answered update_id id false manifest_id (i.resolve_confirmation s manifest_id false)
      else rejected s update_id id "Unknown action"
  with_parts i s update_id id _ = rejected s update_id id "Invalid callback data"

  abbrev pub is_authorized : TelegramInterceptor S → (chat_id : Option Text) → Bool
  is_authorized i none = false
  is_authorized i (some chat_id) = i.is_authorized_chat chat_id

  -- Where the data is not a text, `startsWith` throws, and the update is passed on.
  abbrev pub with_data :
      TelegramInterceptor S → S → TelegramUpdate → CallbackQuery → CallbackData → Step S
  with_data i s u q no_data = (s, ([], passed u))
  with_data i s u q not_text = (s, ([], passed u))
  with_data i s u q (data_text t) =
      if not (starts_with t (codes "confirm:"))
      then (s, ([], passed u))
      else if not (is_authorized i q.chat_id)
      then rejected s u.update_id q.id "Unauthorized"
      else with_parts i s u.update_id q.id (split_on 58 t)

  abbrev pub with_query : TelegramInterceptor S → S → TelegramUpdate → Option CallbackQuery → Step S
  with_query i s u none = (s, ([], passed u))
  with_query i s u (some q) = with_data i s u q q.callback_data

  unfoldable pub intercept_update : TelegramInterceptor S → S → TelegramUpdate → Step S
  unfolding split_on
  intercept_update i s u = with_query i s u u.callback_query

  unfoldable pub intercept_telegram_updates :
      TelegramInterceptor S → S → List TelegramUpdate → S × (List Action × List Intercepted)
  unfolding intercept_update
  intercept_telegram_updates i s [] = (s, ([], []))
  intercept_telegram_updates i s (u ∷ us) =
      let (t, (actions, place)) = intercept_update i s u in
      let (end, (more, places)) = intercept_telegram_updates i t us in
      (end, (actions ++ more, place ∷ places))

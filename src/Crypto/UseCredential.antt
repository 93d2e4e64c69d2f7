-- ===== src/Crypto/UseCredential.antt =====
-- packages/crypto/src/use-credential.ts, without the required keys, which no caller gives. The buffer and
-- its zeroing are left out.
use secure_openclaw_poc.Common.{Text, List, [], ◌∷◌, Option, some, none, text_eq, if◌then◌else◌}
use secure_openclaw_poc.Common.Outcome.{Outcome, returned, thrown}
use secure_openclaw_poc.Types.Json.{Json, Parameters}

-- The vault has no entry of that name, or one that cannot be decrypted or is not well formed.
pub data VaultError : Type 0 where
  no_credential unreadable : VaultError

-- `retrieveBuffer`, and the fields that JSON.parse finds in its text.
abbrev pub Vault : Type 0
Vault = (service_id : Text) → Outcome VaultError Parameters

abbrev pub Credential : Type 0
Credential = List (Text × Text)

abbrev pub add_text :
    (name : Text) → Json → Outcome VaultError Credential → Outcome VaultError Credential
add_text name (Json.text t) (returned rest) = returned ((name, t) ∷ rest)
add_text name value rest = thrown unreadable

-- The entry, if all its values are texts.
abbrev pub all_texts : Parameters → Outcome VaultError Credential
all_texts [] = returned []
all_texts ((name, value) ∷ ps) = add_text name value (all_texts ps)

abbrev pub parsed_credential : Outcome VaultError Parameters → Outcome VaultError Credential
parsed_credential (thrown e) = thrown e
parsed_credential (returned ps) = all_texts ps

-- The credential that the callback is given.
unfoldable pub use_credential : Vault → (service_id : Text) → Outcome VaultError Credential
use_credential vault service_id = parsed_credential (vault service_id)

-- `cred[field]`, for fields that Object.prototype does not have.
abbrev pub value_of : (field : Text) → Credential → Option Text
value_of field [] = none
value_of field ((name, value) ∷ rest) =
    let later = value_of field rest in if text_eq name field then some value else later

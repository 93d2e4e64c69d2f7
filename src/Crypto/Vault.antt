-- ===== src/Crypto/Vault.antt =====
-- packages/crypto/src/vault.ts. AES-256-GCM, PBKDF2, random nonces and salts, JSON and the file system
-- come from outside: `Crypto` has what is computed, and each call is given its nonce and whether its
-- write succeeds. A failed write leaves `torn` in the file. A file is a value of any type `F`.
--
-- The entries are the own properties of an object, in the order of insertion: that JavaScript puts names
-- that are numbers first is left out. An assignment to `__proto__` makes the entry the prototype of the
-- object instead; JSON.stringify and Object.entries do not see it.
pub mod Reopened
mod Tests
use secure_openclaw_poc.Common.{
  String, Text, ℕ, Bool, Option, some, none, map, codes, text_eq, if◌then◌else◌, List, [], ◌∷◌,
  ◌&&◌, any, false, not, str_eq, ◌||◌,
}
use secure_openclaw_poc.Common.JsMap
use secure_openclaw_poc.Common.JsMap.{JsMap}
use secure_openclaw_poc.Common.Outcome.{Outcome, returned, thrown}

pub record VaultEntry (B : Type 0) : Type 0 where
  pub kind : String
  pub data_blob : B
  pub created_at : String

pub record VaultFile (B : Type 0) : Type 0 where
  pub salt : Text
  pub verifier : B
  pub entries : JsMap (VaultEntry B)
  pub prototype : Option (VaultEntry B)

pub record CredentialVault (B : Type 0) : Type 0 where
  pub derived_key : Text
  pub contents : VaultFile B

pub record Crypto (B F : Type 0) : Type 0 where
  pub encrypt : (key : Text) (nonce : ℕ) (plaintext : Text) → B
  pub decrypt : (key : Text) → B → Option Text
  pub derive_key : (password salt : Text) → Text
  pub print_file : VaultFile B → F
  pub parse_file : F → Option (VaultFile B)

pub data Error : Type 0 where
  malformed_file decryption_failed no_credential malformed_entry write_failed : Error

-- What an open vault and its file are.
pub record State (B F : Type 0) : Type 0 where
  pub vault : CredentialVault B
  pub file : F

-- Whether the write of a call succeeds, and if not what it leaves.
pub data Write (F : Type 0) : Type 0 where
  succeeds : Write F
  fails : (torn : F) → Write F

abbrev pub verifier_plaintext : Text
verifier_plaintext = codes "sentinel-vault-v1"

-- What an object has from `Object.prototype`, but for `__proto__`.
abbrev pub object_properties : List String
object_properties =
    "constructor" ∷ "hasOwnProperty" ∷ "isPrototypeOf" ∷ "propertyIsEnumerable" ∷ "toLocaleString"
    ∷ "toString" ∷ "valueOf" ∷ "__defineGetter__" ∷ "__defineSetter__" ∷ "__lookupGetter__"
    ∷ "__lookupSetter__" ∷ []

module _ {B F : Type 0} (crypto : Crypto B F) where
  pub save : State B F → Write F → Outcome Error (Unit {0}) × State B F
  save s succeeds = (returned tt, record s { file = crypto.print_file s.vault.contents })
  save s (fails torn) = (thrown write_failed, record s { file = torn })

  abbrev pub with_contents : State B F → VaultFile B → State B F
  with_contents s contents = record s { vault = record s.vault { contents = contents } }

  -- `entries[serviceId] = entry`.
  abbrev pub set_entry : (service_id : String) → VaultEntry B → VaultFile B → VaultFile B
  set_entry service_id e f =
      if str_eq service_id "__proto__"
      then record f { prototype = some e }
      else record f { entries = JsMap.set service_id e f.entries }

  -- `CredentialVault.create`, where its write succeeds.
  unfoldable pub create : (master_password salt : Text) (nonce : ℕ) → State B F
  create master_password salt nonce =
      let key = crypto.derive_key master_password salt in
      let contents : VaultFile B = record {
        salt = salt;
        verifier = crypto.encrypt key nonce verifier_plaintext;
        entries = [];
        prototype = none;
      } in
      record {
        vault = record { derived_key = key; contents = contents };
        file = crypto.print_file contents;
      }

  abbrev pub with_verified :
      CredentialVault B → (verified : Option Text) → Outcome Error (CredentialVault B)
  with_verified v none = thrown decryption_failed
  with_verified v (some verified) =
      if text_eq verified verifier_plaintext then returned v else thrown decryption_failed

  abbrev pub with_file :
      (master_password : Text) → Option (VaultFile B) → Outcome Error (CredentialVault B)
  with_file master_password none = thrown malformed_file
  with_file master_password (some contents) =
      let key = crypto.derive_key master_password contents.salt in
      with_verified (record { derived_key = key; contents = contents })
        (crypto.decrypt key contents.verifier)

  unfoldable pub open_vault :
      (file : F) (master_password : Text) → Outcome Error (CredentialVault B)
  open_vault file master_password = with_file master_password (crypto.parse_file file)

  unfoldable pub store :
      State B F
      → (service_id kind : String) (credential : Text) (nonce : ℕ) (now : String) → Write F
      → Outcome Error (Unit {0}) × State B F
  unfolding save
  store s service_id kind credential nonce now w =
      let entry : VaultEntry B = record {
        kind = kind;
        data_blob = crypto.encrypt s.vault.derived_key nonce credential;
        created_at = now;
      } in
      save (with_contents s (set_entry service_id entry s.vault.contents)) w

  unfoldable pub remove :
      State B F → (service_id : String) → Write F → Outcome Error (Unit {0}) × State B F
  unfolding save
  remove s service_id w =
      let contents = record s.vault.contents {
        entries = JsMap.delete service_id s.vault.contents.entries;
      } in
      save (with_contents s contents) w

  unfoldable pub wipe : State B F → Write F → Outcome Error (Unit {0}) × State B F
  unfolding save
  wipe s w = save (with_contents s (record s.vault.contents { entries = []; prototype = none })) w

  abbrev pub decrypted : Option Text → Outcome Error Text
  decrypted none = thrown decryption_failed
  decrypted (some t) = returned t

  -- What is read of a prototype that is an entry. Its type is no entry if it is empty.
  abbrev pub has_property : Option (VaultEntry B) → (name : String) → Bool
  has_property none name = false
  has_property (some e) name =
      str_eq name "data"
      || (str_eq name "createdAt" || (str_eq name "type" && not (str_eq e.kind "")))

  -- Reading `entry.data.iv` throws where a property that is inherited is no entry.
  abbrev pub with_inherited : CredentialVault B → (service_id : String) → Outcome Error Text
  with_inherited v service_id =
      if any (λ name. str_eq name service_id) object_properties
        || has_property v.contents.prototype service_id
      then thrown malformed_entry
      else thrown no_credential

  -- `__proto__` gives the prototype: an entry, or Object.prototype, which is none.
  abbrev pub with_prototype : CredentialVault B → Option (VaultEntry B) → Outcome Error Text
  with_prototype v none = thrown malformed_entry
  with_prototype v (some e) = decrypted (crypto.decrypt v.derived_key e.data_blob)

  abbrev pub with_entry :
      CredentialVault B → (service_id : String) → Option (VaultEntry B) → Outcome Error Text
  with_entry v service_id none =
      if str_eq service_id "__proto__"
      then with_prototype v v.contents.prototype
      else with_inherited v service_id
  with_entry v service_id (some e) = decrypted (crypto.decrypt v.derived_key e.data_blob)

  unfoldable pub retrieve_buffer : CredentialVault B → (service_id : String) → Outcome Error Text
  retrieve_buffer v service_id = with_entry v service_id (JsMap.get service_id v.contents.entries)

  abbrev pub listed : JsMap (VaultEntry B) → List (String × (String × String))
  listed [] = []
  listed ((service_id, e) ∷ m) = (service_id, (e.kind, e.created_at)) ∷ listed m

  unfoldable pub list : CredentialVault B → List (String × (String × String))
  list v = listed v.contents.entries

  -- The key is filled with zeros.
  unfoldable pub destroy : CredentialVault B → CredentialVault B
  destroy v = record v { derived_key = map (λ b. 0) v.derived_key }

-- The calls that change a vault.
pub data Op : Type 0 where
  storing : (service_id kind : String) (credential : Text) (nonce : ℕ) (now : String) → Op
  removing : (service_id : String) → Op
  wiping destroying : Op

module _ {B F : Type 0} (crypto : Crypto B F) where
  abbrev pub apply : State B F → Op → Write F → Outcome Error (Unit {0}) × State B F
  apply s (storing service_id kind credential nonce now) w =
      store crypto s service_id kind credential nonce now w
  apply s (removing service_id) w = remove crypto s service_id w
  apply s wiping w = wipe crypto s w
  apply s destroying w = (returned tt, record s { vault = destroy crypto s.vault })

  -- One call after the other, whether its write succeeds or not.
  unfoldable pub run : State B F → List (Op × Write F) → State B F
  run s [] = s
  run s (o ∷ os) = run (apply s o.0 o.1).1 os

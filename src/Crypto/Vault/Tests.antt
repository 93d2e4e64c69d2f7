-- ===== src/Crypto/Vault/Tests.antt =====
-- Runs of a vault, with a cipher that puts the key beside the text.
use secure_openclaw_poc.Common.{
  ◌++◌, Text, [], arith, codes, if◌then◌else◌, none, refl, some, text_eq, true, ℕ, ◌∷◌, ◌≡◌,
}
use secure_openclaw_poc.Crypto.Vault.Reopened.{run-open_vault, store-retrieve_buffer}
use secure_openclaw_poc.Common.Outcome.{returned, thrown}
use secure_openclaw_poc.Crypto.Vault.{
  Crypto, State, VaultFile, apply, create, decryption_failed, destroy, fails, open_vault, removing,
  retrieve_buffer, run, store, storing, succeeds, verifier_plaintext, destroying, malformed_entry,
}
use secure_openclaw_poc.Common.JsMap

text_eq_refl : (t : Text) → text_eq t t ≡ true
text_eq_refl [] = refl
text_eq_refl (c ∷ cs) = ground (arith, text_eq_refl cs)

abbrev Blob : Type 0
Blob = Text × Text

abbrev toy : Crypto Blob (VaultFile Blob)
toy = record {
  encrypt = λ key nonce t. (key, t);
  decrypt = λ key b. if text_eq b.0 key then some b.1 else none;
  derive_key = λ password salt. password ++ salt;
  print_file = λ f. f;
  parse_file = λ f. some (record f { prototype = none });
}

toy_opens : (key : Text) (nonce : ℕ) (t : Text) → toy.decrypt key (toy.encrypt key nonce t) ≡ some t
toy_opens key nonce t = rw (text_eq_refl key) refl

abbrev fresh : State Blob (VaultFile Blob)
fresh = record {
  vault = record {
    derived_key = codes "pws";
    contents = record {
      salt = codes "s";
      verifier = (codes "pws", verifier_plaintext);
      entries = [];
      prototype = none;
    };
  };
  file = record {
    salt = codes "s";
    verifier = (codes "pws", verifier_plaintext);
    entries = [];
    prototype = none;
  };
}

fresh_is_created : create toy (codes "pw") (codes "s") 1 ≡ fresh
unfolding create
fresh_is_created = refl

wrong_password_is_refused : open_vault toy fresh.file (codes "px") ≡ thrown decryption_failed
unfolding open_vault
wrong_password_is_refused = refl

-- A destroyed vault goes on, with a key of zeros.
destroyed_vault_stores :
    (store toy
      (record { vault = destroy toy fresh.vault; file = fresh.file })
      "g"
      "k"
      (codes "t")
      2
      "now"
      succeeds).1.vault.contents.entries
    ≡ ("g", record { kind = "k"; data_blob = (0 ∷ 0 ∷ 0 ∷ [], codes "t"); created_at = "now" }) ∷ []
unfolding store JsMap.set destroy
destroyed_vault_stores = refl

run-open_vault_example :
    open_vault toy
      (apply toy
        (run toy
          (create toy (codes "pw") (codes "s") 1)
          ((storing "g" "k" (codes "t") 2 "now", fails fresh.file) ∷ (destroying, succeeds) ∷ []))
        (removing "h")
        succeeds).1.file
      (codes "pw")
    ≡ returned (record {
      derived_key = codes "pws";
      contents =
          record (apply toy
            (run toy (create toy (codes "pw") (codes "s") 1) (
              (storing "g" "k" (codes "t") 2 "now", fails fresh.file)
              ∷ (destroying, succeeds)
              ∷ []))
            (removing "h")
            succeeds).1.vault.contents { prototype = none };
    })
run-open_vault_example =
    run-open_vault toy (codes "pw") (codes "s") 1 toy_opens (λ f. refl)
      ((storing "g" "k" (codes "t") 2 "now", fails fresh.file) ∷ (destroying, succeeds) ∷ [])
      (removing "h") tt

store-retrieve_buffer_example :
    retrieve_buffer toy
      (run toy
        (store toy fresh "g" "k" (codes "t") 2 "now" succeeds).1
        ((removing "h", succeeds) ∷ [])).vault
      "g"
    ≡ returned (codes "t")
store-retrieve_buffer_example =
    store-retrieve_buffer toy toy_opens "g" (codes "t") fresh "k" 2 "now" succeeds
      ((removing "h", succeeds) ∷ []) refl tt (refl, tt)

-- An entry that is stored as `__proto__` can be read, and is not in the file that opens again.
prototype_is_not_saved :
    (retrieve_buffer toy
        (store toy fresh "__proto__" "k" (codes "t") 2 "now" succeeds).1.vault
        "__proto__"
      ≡ returned (codes "t"))
    × (open_vault toy
          (store toy fresh "__proto__" "k" (codes "t") 2 "now" succeeds).1.file
          (codes "pw")
        ≡ returned fresh.vault)
unfolding retrieve_buffer store open_vault JsMap.get JsMap.set
prototype_is_not_saved = (refl, refl)

-- A name that objects inherit is no missing credential.
inherited_name_is_malformed : retrieve_buffer toy fresh.vault "constructor" ≡ thrown malformed_entry
unfolding retrieve_buffer JsMap.get
inherited_name_is_malformed = refl

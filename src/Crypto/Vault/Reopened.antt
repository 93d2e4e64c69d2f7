-- ===== src/Crypto/Vault/Reopened.antt =====
-- What an opened file has.
use secure_openclaw_poc.Common.JsMap
use secure_openclaw_poc.Common.JsMap.{JsMap}
use secure_openclaw_poc.Common.{
  List, Text, [], refl, some, ℕ, ◌∷◌, ◌≡◌, String, false, str_eq, sym, All, eq_refl, subst, if_elim,
  none,
}
use secure_openclaw_poc.Common.Outcome.{returned}
use secure_openclaw_poc.Crypto.Vault.{
  Crypto, Op, State, VaultEntry, VaultFile, Write, apply, create, fails, open_vault, remove,
  removing, run, save, store, storing, succeeds, verifier_plaintext, wipe, wiping, with_contents,
  CredentialVault, retrieve_buffer, destroy, destroying, set_entry,
}

-- The calls that write the file.
abbrev pub Saves : Op → Type 0
Saves (storing service_id kind credential nonce now) = Unit
Saves (removing service_id) = Unit
Saves wiping = Unit
Saves destroying = ⊥

module _ {B F : Type 0} (crypto : Crypto B F) (master_password salt : Text) (first_nonce : ℕ)
    (opens : (key : Text) (nonce : ℕ) (t : Text)
      → crypto.decrypt key (crypto.encrypt key nonce t) ≡ some t)
    (parses : (f : VaultFile B)
      → crypto.parse_file (crypto.print_file f) ≡ some (record f { prototype = none })) where
  abbrev key : Text
  key = crypto.derive_key master_password salt

  -- The salt and the verifier are those of the creation.
  record IsOwn (f : VaultFile B) : Type 0 where
    same_salt : f.salt ≡ salt
    same_verifier : f.verifier ≡ crypto.encrypt key first_nonce verifier_plaintext

  create-IsOwn : IsOwn (create crypto master_password salt first_nonce).vault.contents
  unfolding create
  create-IsOwn = record { same_salt = refl; same_verifier = refl }

  save-IsOwn :
      (s : State B F) (contents : VaultFile B) (w : Write F)
      → IsOwn contents
      → IsOwn (save crypto (with_contents crypto s contents) w).1.vault.contents
  unfolding save
  save-IsOwn s contents succeeds o = o
  save-IsOwn s contents (fails torn) o = o

  set_entry-IsOwn :
      (id : String) (e : VaultEntry B) (f : VaultFile B) → IsOwn f → IsOwn (set_entry crypto id e f)
  set_entry-IsOwn id e f o =
      if_elim IsOwn (str_eq id "__proto__") (record f { prototype = some e })
        (record f { entries = JsMap.set id e f.entries })
        (λ special. record { same_salt = o.same_salt; same_verifier = o.same_verifier })
        (λ plain. record { same_salt = o.same_salt; same_verifier = o.same_verifier })

  apply-IsOwn :
      (s : State B F) (o : Op) (w : Write F)
      → IsOwn s.vault.contents
      → IsOwn (apply crypto s o w).1.vault.contents
  unfolding store remove wipe destroy
  apply-IsOwn s (storing service_id kind credential nonce now) w i =
      save-IsOwn s _ w (set_entry-IsOwn service_id _ s.vault.contents i)
  apply-IsOwn s (removing service_id) w i =
      save-IsOwn s _ w (record { same_salt = i.same_salt; same_verifier = i.same_verifier })
  apply-IsOwn s wiping w i =
      save-IsOwn s _ w (record { same_salt = i.same_salt; same_verifier = i.same_verifier })
  apply-IsOwn s destroying w i = i

  run-IsOwn :
      (s : State B F) (os : List (Op × Write F))
      → IsOwn s.vault.contents
      → IsOwn (run crypto s os).vault.contents
  unfolding run
  run-IsOwn s [] i = i
  run-IsOwn s (o ∷ os) i = run-IsOwn (apply crypto s o.0 o.1).1 os (apply-IsOwn s o.0 o.1 i)

  -- A file that was printed from the contents opens with the key of the creation.
  open-own :
      (f : VaultFile B)
      → IsOwn f
      → open_vault crypto (crypto.print_file f) master_password
        ≡ returned (record { derived_key = key; contents = record f { prototype = none } })
  unfolding open_vault
  open-own f i =
      rw (parses f, i.same_salt, i.same_verifier, opens key first_nonce verifier_plaintext) refl

  saved-file :
      (s : State B F) (o : Op)
      → Saves o
      → (apply crypto s o succeeds).1.file
        ≡ crypto.print_file (apply crypto s o succeeds).1.vault.contents
  unfolding store remove wipe save
  saved-file s (storing service_id kind credential nonce now) saves = refl
  saved-file s (removing service_id) saves = refl
  saved-file s wiping saves = refl
  saved-file s destroying saves = absurd saves

  -- After any calls, `destroy` among them, once the write of the last one succeeded, whichever
  -- writes failed before, the file opens with the password of the creation: with the key that is
  -- derived from it, and the contents that are in memory, but for an entry that was stored as
  -- `__proto__`; if the cipher decrypts what it encrypts, and a printed file is read back without
  -- its prototype.
  pub run-open_vault :
      (os : List (Op × Write F)) (last : Op)
      → Saves last
      → open_vault crypto
          (apply crypto
            (run crypto (create crypto master_password salt first_nonce) os)
            last
            succeeds).1.file
          master_password
        ≡ returned (record {
          derived_key = crypto.derive_key master_password salt;
          contents =
              record (apply crypto
                (run crypto (create crypto master_password salt first_nonce) os)
                last
                succeeds).1.vault.contents { prototype = none };
        })
  run-open_vault os last saves =
      let s = run crypto (create crypto master_password salt first_nonce) os in
      rw (saved-file s last saves) (
        open-own (apply crypto s last succeeds).1.vault.contents
          (apply-IsOwn s last succeeds (run-IsOwn _ os create-IsOwn)))

-- The calls that leave the entry of a service.
abbrev pub Spares : String → Op → Type 0
Spares id (storing service_id kind credential nonce now) = str_eq service_id id ≡ false
Spares id (removing service_id) = str_eq service_id id ≡ false
Spares id wiping = ⊥
Spares id destroying = ⊥

module _ {B F : Type 0} (crypto : Crypto B F)
    (opens : (key : Text) (nonce : ℕ) (t : Text)
      → crypto.decrypt key (crypto.encrypt key nonce t) ≡ some t)
    (id : String) (credential : Text) where
  -- The entry of the service, by the key that the vault has.
  record Holds (v : CredentialVault B) : Type 0 where
    distinct : JsMap.HasDistinctKeys v.contents.entries
    entry : VaultEntry B
    found : JsMap.get id v.contents.entries ≡ some entry
    readable : crypto.decrypt v.derived_key entry.data_blob ≡ some credential

  save-vault : (s : State B F) (w : Write F) → (save crypto s w).1.vault ≡ s.vault
  unfolding save
  save-vault s succeeds = refl
  save-vault s (fails torn) = refl

  -- After an entry was set under the name or under another one.
  set_entry-Holds :
      (v : CredentialVault B) (e : VaultEntry B)
      → str_eq id "__proto__" ≡ false
      → crypto.decrypt v.derived_key e.data_blob ≡ some credential
      → JsMap.HasDistinctKeys v.contents.entries
      → Holds (record v { contents = set_entry crypto id e v.contents })
  set_entry-Holds v e plain readable d = rw plain (record {
    distinct = JsMap.set-HasDistinctKeys id e v.contents.entries d;
    entry = e;
    found = rw (JsMap.get-set id id e v.contents.entries, eq_refl id) refl;
    readable = readable;
  })

  set_other-Holds :
      (v : CredentialVault B) (service_id : String) (e : VaultEntry B)
      → str_eq service_id id ≡ false
      → Holds v
      → Holds (record v { contents = set_entry crypto service_id e v.contents })
  set_other-Holds v service_id e spared h =
      if_elim (λ (f : VaultFile B). Holds (record v { contents = f }))
        (str_eq service_id "__proto__") (record v.contents { prototype = some e })
        (record v.contents { entries = JsMap.set service_id e v.contents.entries })
        (λ special. record {
          distinct = h.distinct;
          entry = h.entry;
          found = h.found;
          readable = h.readable;
        })
        (λ plain. record {
          distinct = JsMap.set-HasDistinctKeys service_id e v.contents.entries h.distinct;
          entry = h.entry;
          found = rw (JsMap.get-set service_id id e v.contents.entries, spared) h.found;
          readable = h.readable;
        })

  store-Holds :
      (s : State B F) (kind : String) (nonce : ℕ) (now : String) (w : Write F)
      → str_eq id "__proto__" ≡ false
      → JsMap.HasDistinctKeys s.vault.contents.entries
      → Holds (store crypto s id kind credential nonce now w).1.vault
  unfolding store
  store-Holds s kind nonce now w plain d =
      let e : VaultEntry B = record {
        kind = kind;
        data_blob = crypto.encrypt s.vault.derived_key nonce credential;
        created_at = now;
      } in
      subst Holds
        (sym (save-vault (with_contents crypto s (set_entry crypto id e s.vault.contents)) w))
        (set_entry-Holds s.vault e plain (opens s.vault.derived_key nonce credential) d)

  apply-Holds :
      (s : State B F) (o : Op) (w : Write F)
      → Spares id o
      → Holds s.vault
      → Holds (apply crypto s o w).1.vault
  unfolding store remove
  apply-Holds s (storing service_id kind other nonce now) w spared h =
      subst Holds (sym (save-vault (with_contents crypto s _) w)) (
        set_other-Holds s.vault service_id
          (record {
            kind = kind;
            data_blob = crypto.encrypt s.vault.derived_key nonce other;
            created_at = now;
          })
          spared h)
  apply-Holds s (removing service_id) w spared h =
      subst Holds (sym (save-vault (with_contents crypto s _) w)) (record {
        distinct = JsMap.delete-HasDistinctKeys service_id s.vault.contents.entries h.distinct;
        entry = h.entry;
        found =
            rw (JsMap.get-delete service_id id s.vault.contents.entries h.distinct, spared) h.found;
        readable = h.readable;
      })
  apply-Holds s wiping w spared h = absurd spared
  apply-Holds s destroying w spared h = absurd spared

  run-Holds :
      (s : State B F) (os : List (Op × Write F))
      → All (λ o. Spares id o.0) os
      → Holds s.vault
      → Holds (run crypto s os).vault
  unfolding run
  run-Holds s [] spared h = h
  run-Holds s (o ∷ os) spared h =
      run-Holds (apply crypto s o.0 o.1).1 os spared.1 (apply-Holds s o.0 o.1 spared.0 h)

  -- What was stored for a service, by another name than `__proto__`, in a vault whose entries have
  -- distinct names, is what its entry decrypts to, after any further calls that do not store or
  -- remove that entry, and neither wipe nor destroy the vault, whichever of the writes fail; if the
  -- cipher decrypts what it encrypts.
  pub store-retrieve_buffer :
      (s : State B F) (kind : String) (nonce : ℕ) (now : String) (w : Write F)
      (os : List (Op × Write F))
      → str_eq id "__proto__" ≡ false
      → JsMap.HasDistinctKeys s.vault.contents.entries
      → All (λ o. Spares id o.0) os
      → retrieve_buffer crypto
          (run crypto (store crypto s id kind credential nonce now w).1 os).vault
          id
        ≡ returned credential
  unfolding retrieve_buffer
  store-retrieve_buffer s kind nonce now w os plain d spared =
      let h =
        run-Holds (store crypto s id kind credential nonce now w).1 os spared
          (store-Holds s kind nonce now w plain d) in
      rw (h.found, h.readable) refl

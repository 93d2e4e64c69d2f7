-- ===== src/Audit/Logger/Chain.antt =====
-- Logging keeps the chain whole, if the summary is not changed by the redaction.
use secure_openclaw_poc.Common.{
  ◌++◌, List, Option-cases, String, [], arith, false, inl, inr, refl, some, str_eq, true, ℕ, ◌∷◌,
  ◌≡◌, eq_refl, Option, none, All, ap, sym, ◌∙◌, subst,
}
use secure_openclaw_poc.Common.Outcome.{Outcome, returned, thrown, ◌>>=◌, >>=-returned}
use secure_openclaw_poc.Types.{AuditEntry}
use secure_openclaw_poc.Audit.Redact.{redact_credentials}
use secure_openclaw_poc.Audit.Logger.{
  AuditRow, Env, AuditLogger, VerifyOptions, valid, hashed, last_hash, new_row, get_db, committed,
  log, signature_ok, verify_rows, verify_chain, closed, Error,
}

module _ {T : Type 0} (env : Env T) where
  open env use {rows, insert, sha256, sign, verify, redact_all}

  -- An insertion that succeeds appends the row.
  abbrev pub Appends : Type 0
  Appends = (r : AuditRow) (t t' : T) → insert r t ≡ some t' → rows t' ≡ rows t ++ r ∷ []

  -- The redaction leaves the summary of the entry as it is.
  abbrev pub IsRedacted : AuditEntry → Type 0
  IsRedacted e = redact_credentials redact_all e.parameters_summary ≡ e.parameters_summary

  -- The public key of the options, if any, accepts what the key signs.
  abbrev pub Matches : VerifyOptions → List ℕ → Type 0
  Matches o key =
      (hash public_key : String)
      → o.public_key ≡ some public_key
      → (s : String) × (sign hash key ≡ some s)
        × (str_eq s "" ≡ false)
        × (verify hash s public_key ≡ some true)

  pub verify_rows-append :
      (o : VerifyOptions) (p : String) (rs : List AuditRow) (r : AuditRow)
      → verify_rows env o p rs ≡ valid
      → verify_rows env o p (rs ++ r ∷ []) ≡ verify_rows env o (last_hash p rs) (r ∷ [])
  unfolding verify_rows last_hash
  verify_rows-append o p [] r h = refl
  verify_rows-append o p (q ∷ rs) r h = ground (arith, verify_rows-append o q.entry_hash rs r)

  signature_ok-new_row :
      (o : VerifyOptions) (e : AuditEntry) (key : List ℕ) (prev : String)
      → Matches o key
      → signature_ok env o (new_row env e key prev) ≡ true
  unfolding signature_ok new_row
  signature_ok-new_row o e key prev m = elim (Option-cases o.public_key) [
    | inl no_key ↦ rw (no_key, signature_ok)
    | inr (pk, has_key) ↦
        let (s, signed, full, accepted) = m (sha256 (hashed e prev)) pk has_key in
        ground (arith, signed, full, accepted, has_key)
  ]

  new_row-valid :
      (o : VerifyOptions) (e : AuditEntry) (key : List ℕ) (prev : String)
      → Matches o key
      → IsRedacted e
      → verify_rows env o prev (new_row env e key prev ∷ []) ≡ valid
  unfolding verify_rows new_row
  new_row-valid o e key prev m r =
      rw (eq_refl prev, r, eq_refl (sha256 (hashed e prev)), signature_ok-new_row o e key prev m)

  -- What a call that logs has done.
  pub record Logged (l : AuditLogger T) (e : AuditEntry) (l' : AuditLogger T) : Type 0 where
    pub before : T
    pub after : T
    pub opened : l.db ≡ some before
    pub inserted :
        insert (new_row env e l.signing_key (last_hash "" (rows before))) before ≡ some after
    pub state : l' ≡ record l { db = some after }

  committed-eq-returned :
      (l l' : AuditLogger T) (e : AuditEntry) (t : T)
      → l.db ≡ some t
      → (o : Option T) → insert (new_row env e l.signing_key (last_hash "" (rows t))) t ≡ o
      → (committed env o >>= λ t'. returned (record l { db = some t' })) ≡ returned l'
      → Logged l e l'
  unfolding committed
  committed-eq-returned l l' e t opened none i h = cc
  committed-eq-returned l l' e t opened (some t') i h = record {
    before = t;
    after = t';
    opened = opened;
    inserted = i;
    state = cc;
  }

  pub log_closed : (l : AuditLogger T) (e : AuditEntry) → l.db ≡ none → log env l e ≡ thrown closed
  unfolding log
  log_closed l e shut = rw (shut, get_db)

  log_open :
      (l : AuditLogger T) (e : AuditEntry) (t : T)
      → l.db ≡ some t
      → log env l e ≡ (
          committed env (insert (new_row env e l.signing_key (last_hash "" (rows t))) t) >>= λ t'.
          returned (record l { db = some t' }))
  unfolding log
  log_open l e t opened = rw (opened, get_db)

  pub log-eq-returned :
      (l l' : AuditLogger T) (e : AuditEntry) → log env l e ≡ returned l' → Logged l e l'
  log-eq-returned l l' e h = elim (Option-cases l.db) [
    | inl shut ↦ cc (log_closed l e shut)
    | inr (t, opened) ↦
        committed-eq-returned l l' e t opened _ refl (sym (log_open l e t opened) ∙ h)
  ]

  pub verify_chain_open :
      (l : AuditLogger T) (o : VerifyOptions) (t : T)
      → l.db ≡ some t
      → verify_chain env l o ≡ returned (verify_rows env o "" (rows t))
  unfolding verify_chain
  verify_chain_open l o t opened = rw (opened, get_db)

  -- One entry more, and the chain that was whole is whole.
  pub log-verify_chain :
      (o : VerifyOptions) (l l' : AuditLogger T) (e : AuditEntry)
      → Appends
      → Matches o l.signing_key
      → IsRedacted e
      → verify_chain env l o ≡ returned valid
      → log env l e ≡ returned l'
      → verify_chain env l' o ≡ returned valid
  log-verify_chain o l l' e a m r h done =
      let s = log-eq-returned l l' e done in
      let row = new_row env e l.signing_key (last_hash "" (rows s.before)) in
      let whole : verify_rows env o "" (rows s.before) ≡ valid =
        cc (h, verify_chain_open l o s.before s.opened) in
      verify_chain_open l' o s.after (ap (λ (k : AuditLogger T). k.db) s.state)
      ∙ ap returned (
          ap (verify_rows env o "") (a row s.before s.after s.inserted)
          ∙ verify_rows-append o "" (rows s.before) row whole
          ∙ new_row-valid o e l.signing_key (last_hash "" (rows s.before)) m r)

  unfoldable pub log_all : AuditLogger T → List AuditEntry → Outcome Error (AuditLogger T)
  log_all l [] = returned l
  log_all l (e ∷ es) = log env l e >>= λ l'. log_all l' es

  -- A log that passes its own verification still passes it after any entries were logged, if their
  -- summaries are left as they are by the redaction, insertion appends, and the public key of the
  -- options, if any, accepts what the signing key signs.
  pub log_all-verify_chain :
      (o : VerifyOptions) (l l' : AuditLogger T) (es : List AuditEntry)
      → Appends
      → Matches o l.signing_key
      → All IsRedacted es
      → verify_chain env l o ≡ returned valid
      → log_all l es ≡ returned l'
      → verify_chain env l' o ≡ returned valid
  unfolding log_all
  log_all-verify_chain o l l' [] a m r h done = cc
  log_all-verify_chain o l l' (e ∷ es) a m r h done =
      let (k, logged, rest) = >>=-returned (log env l e) _ done in
      let same = ap (λ (j : AuditLogger T). j.signing_key) (log-eq-returned l k e logged).state in
      log_all-verify_chain o k l' es a (subst (Matches o) (sym same) m) r.1
        (log-verify_chain o l k e a m r.0 h logged) rest

-- ===== src/Audit/Logger/Unredacted.antt =====
-- packages/audit/src/logger.ts: the hash is of the summary as it came, the row keeps the redacted one.
use secure_openclaw_poc.Common.{
  String, [], ◌≡◌, ◌≢◌, ap, ◌∙◌, sym, ◌++◌, List, append-nil, append_assoc, some, ◌∷◌,
}
use secure_openclaw_poc.Types.{AuditEntry}
use secure_openclaw_poc.Audit.Redact.{redact_credentials}
use secure_openclaw_poc.Common.Outcome.{returned, >>=-returned}
use secure_openclaw_poc.Audit.Logger.{
  AuditLogger, Env, VerifyOptions, valid, broken_at, hashed, last_hash, compute_entry_hash, new_row,
  log, verify_rows, verify_chain, AuditRow,
}
use secure_openclaw_poc.Audit.Logger.Chain.{Appends, log-eq-returned, verify_chain_open, log_all}
use secure_openclaw_poc.Audit.Logger.Evidence.{verify_rows-stale}

module _ {T : Type 0} (env : Env T) where
  open env use {rows, sha256, redact_all}

  -- The entry as the table keeps it.
  abbrev pub stored : AuditEntry → AuditEntry
  stored e = record e { parameters_summary = redact_credentials redact_all e.parameters_summary }

  -- Entries that are logged leave the rows that were there.
  log_all-rows :
      (l l' : AuditLogger T) (t : T) (es : List AuditEntry)
      → Appends env
      → l.db ≡ some t
      → log_all env l es ≡ returned l'
      → (t' : T) × (l'.db ≡ some t') × (more : List AuditRow) × (rows t' ≡ rows t ++ more)
  unfolding log_all
  log_all-rows l l' t [] a opened done =
      let same : l ≡ l' = cc in
      (t, ap (λ (k : AuditLogger T). k.db) (sym same) ∙ opened, [], sym (append-nil (rows t)))
  log_all-rows l l' t (e ∷ es) a opened done =
      let (k, logged, rest) = >>=-returned (log env l e) _ done in
      let s = log-eq-returned env l k e logged in
      let row = new_row env e l.signing_key (last_hash "" (rows s.before)) in
      let open_after = ap (λ (j : AuditLogger T). j.db) s.state in
      let (t', opened', more, kept) = log_all-rows k l' s.after es a open_after rest in
      let same : some s.before ≡ some t = sym s.opened ∙ opened in
      let same_table : s.before ≡ t = cc in
      (
        t',
        opened',
        row ∷ more,
        kept
            ∙ (ap (λ (rs : List AuditRow). rs ++ more) (a row s.before s.after s.inserted)
                ∙ (append_assoc (rows s.before) (row ∷ []) more
                    ∙ ap (λ (x : T). rows x ++ row ∷ more) same_table)),
      )

  -- If an entry that has another hash after its summary is redacted is logged, to a table that
  -- verified before, then the verification reports that entry, whatever entries are logged after
  -- it, if insertion appends.
  pub log-verify_chain_broken :
      (o : VerifyOptions) (l l' l_end : AuditLogger T) (e : AuditEntry) (later : List AuditEntry)
      → Appends env
      → verify_chain env l o ≡ returned valid
      → ((prev : String) → sha256 (hashed (stored e) prev) ≢ sha256 (hashed e prev))
      → log env l e ≡ returned l'
      → log_all env l' later ≡ returned l_end
      → verify_chain env l_end o ≡ returned (broken_at e.id)
  unfolding new_row compute_entry_hash hashed
  log-verify_chain_broken o l l' l_end e later a whole changed done logged =
      let s = log-eq-returned env l l' e done in
      let row = new_row env e l.signing_key (last_hash "" (rows s.before)) in
      let before : verify_rows env o "" (rows s.before) ≡ valid =
        cc (whole, verify_chain_open env l o s.before s.opened) in
      let opened = ap (λ (k : AuditLogger T). k.db) s.state in
      let (t, opened_end, more, kept) = log_all-rows l' l_end s.after later a opened logged in
      let table : rows t ≡ rows s.before ++ row ∷ more =
        kept
        ∙ (ap (λ (rs : List AuditRow). rs ++ more) (a row s.before s.after s.inserted)
            ∙ append_assoc (rows s.before) (row ∷ []) more) in
      verify_chain_open env l_end o t opened_end
      ∙ ap returned (
          ap (verify_rows env o "") table
          ∙ verify_rows-stale env o "" (rows s.before) row more before
              (λ same. changed (last_hash "" (rows s.before)) (sym same)))

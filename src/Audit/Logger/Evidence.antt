-- ===== src/Audit/Logger/Evidence.antt =====
-- What a verified chain is evidence of: the last hash fixes the hashed fields of every row, and a row
-- that was changed afterwards is the one that is reported.
use secure_openclaw_poc.Common.{
  ◌++◌, List, String, [], arith, ◌∷◌, ◌≡◌, eq_iff, map, refl, reverse_aux, ◌≢◌, ap, reverse, sym,
  ◌∙◌, map-reverse-cancel, All, All-map, All-reverse,
}
use secure_openclaw_poc.Audit.Logger.{
  Hashed, AuditRow, Env, VerifyOptions, valid, broken_at, hashed, last_hash, compute_entry_hash,
  verify_rows, AuditEntry,
}

module _ {T : Type 0} (env : Env T) where
  open env use {rows, insert, sha256, sign, verify, redact_all}

  abbrev pub content : AuditRow → Hashed
  content r = hashed r.entry r.prev_hash

  -- No row of one table has the hash of a row of the other with other fields.
  abbrev pub HaveNoCollisions : List AuditRow → List AuditRow → Type 0
  HaveNoCollisions xs ys =
      All (λ x. All (λ y. sha256 (content x) ≡ sha256 (content y) → content x ≡ content y) ys) xs

  -- The hash and the link of one row are right.
  abbrev pub IsLinked : (expected : String) → AuditRow → Type 0
  IsLinked expected r = (r.prev_hash ≡ expected) × (r.entry_hash ≡ sha256 (content r))

  verify_rows-cons :
      (o : VerifyOptions) (p : String) (r : AuditRow) (rs : List AuditRow)
      → verify_rows env o p (r ∷ rs) ≡ valid
      → IsLinked p r × (verify_rows env o r.entry_hash rs ≡ valid)
  unfolding verify_rows compute_entry_hash
  verify_rows-cons o p r rs h =
      let linked = eq_iff r.prev_hash p in
      let right = eq_iff r.entry_hash (sha256 (content r)) in ground (arith, linked.0, right.0)

  -- Of the rows in reverse order, the newest has the hash `h`.
  newest : List AuditRow → String
  newest [] = ""
  newest (r ∷ older) = r.entry_hash

  IsChain : List AuditRow → Type 0
  IsChain [] = Unit
  IsChain (r ∷ older) = IsLinked (newest older) r × IsChain older

  verify_rows-IsChain :
      (o : VerifyOptions) (rs older : List AuditRow)
      → IsChain older
      → verify_rows env o (newest older) rs ≡ valid
      → IsChain (reverse_aux rs older)
        × (newest (reverse_aux rs older) ≡ last_hash (newest older) rs)
  unfolding IsChain newest last_hash
  verify_rows-IsChain o [] older c h = (c, refl)
  verify_rows-IsChain o (r ∷ rs) older c h =
      let (linked, rest) = verify_rows-cons o (newest older) r rs h in
      verify_rows-IsChain o rs (r ∷ older) (linked, c) rest

  -- Two chains with the same newest hash.
  IsChain-contents :
      (xs ys : List AuditRow)
      → HaveNoCollisions xs ys
      → ((a : Hashed) → sha256 a ≢ "")
      → IsChain xs
      → IsChain ys
      → newest xs ≡ newest ys
      → map content xs ≡ map content ys
  unfolding IsChain newest hashed
  IsChain-contents [] [] inj full c d e = refl
  IsChain-contents [] (y ∷ ys) inj full c d e = elim (full (content y) (sym (e ∙ d.0.1))) [ ]
  IsChain-contents (x ∷ xs) [] inj full c d e = elim (full (content x) (sym (sym e ∙ c.0.1))) [ ]
  IsChain-contents (x ∷ xs) (y ∷ ys) inj full c d e =
      let same = inj.0.0 (sym c.0.1 ∙ e ∙ d.0.1) in
      let before = ap (λ (a : Hashed). a.prev_hash) same in
      cc (
        same,
        IsChain-contents xs ys (All-map (λ x a. a.1) xs inj.1) full c.1 d.1
            (sym c.0.0 ∙ before ∙ d.0.0),
      )

  -- Two tables that verify, with the same hash in their last row, have the same hashed fields in all
  -- rows, if these fields do not collide, and no hash is empty.
  pub verify_rows-contents :
      (o o' : VerifyOptions) (xs ys : List AuditRow)
      → HaveNoCollisions xs ys
      → ((a : Hashed) → sha256 a ≢ "")
      → verify_rows env o "" xs ≡ valid
      → verify_rows env o' "" ys ≡ valid
      → last_hash "" xs ≡ last_hash "" ys
      → map content xs ≡ map content ys
  unfolding IsChain newest
  verify_rows-contents o o' xs ys inj full valid_xs valid_ys same =
      let (c, last_x) = verify_rows-IsChain o xs [] tt valid_xs in
      let (d, last_y) = verify_rows-IsChain o' ys [] tt valid_ys in
      let apart : HaveNoCollisions (reverse xs) (reverse ys) =
        All-reverse _ xs (All-map (λ x. All-reverse _ ys) xs inj) in
      let backward =
        IsChain-contents (reverse xs) (reverse ys) apart full c d (last_x ∙ same ∙ sym last_y) in
      map-reverse-cancel content xs ys backward

  -- The links up to a row are whole, and its own hash is that of other fields.
  pub verify_rows-stale :
      (o : VerifyOptions) (p : String) (xs : List AuditRow) (r : AuditRow) (ys : List AuditRow)
      → verify_rows env o p xs ≡ valid
      → r.entry_hash ≢ sha256 (content r)
      → verify_rows env o p (xs ++ r ∷ ys) ≡ broken_at r.id
  unfolding verify_rows compute_entry_hash
  verify_rows-stale o p [] r ys h stale =
      let right = eq_iff r.entry_hash (sha256 (content r)) in ground (arith, right.0, stale)
  verify_rows-stale o p (x ∷ xs) r ys h stale =
      ground (arith, verify_rows-stale o x.entry_hash xs r ys)

  verify_rows-prefix :
      (o : VerifyOptions) (p : String) (xs ys : List AuditRow)
      → verify_rows env o p (xs ++ ys) ≡ valid
      → verify_rows env o p xs ≡ valid
  unfolding verify_rows
  verify_rows-prefix o p [] ys h = refl
  verify_rows-prefix o p (x ∷ xs) ys h = ground (arith, verify_rows-prefix o x.entry_hash xs ys)

  verify_rows-tail :
      (o : VerifyOptions) (p : String) (xs : List AuditRow) (r : AuditRow) (ys : List AuditRow)
      → verify_rows env o p (xs ++ r ∷ ys) ≡ valid
      → IsLinked (last_hash p xs) r × (verify_rows env o r.entry_hash ys ≡ valid)
  unfolding last_hash
  verify_rows-tail o p [] r ys h = verify_rows-cons o p r ys h
  verify_rows-tail o p (x ∷ xs) r ys h =
      verify_rows-tail o x.entry_hash xs r ys (verify_rows-cons o p x _ h).1

  -- In a table that verifies, the entry of one row is replaced by one whose fields have another hash, and
  -- the chain's columns are left: the verification then reports that row.
  pub verify_rows-changed :
      (o : VerifyOptions) (xs : List AuditRow) (r : AuditRow) (ys : List AuditRow) (e : AuditEntry)
      → verify_rows env o "" (xs ++ r ∷ ys) ≡ valid
      → sha256 (hashed e r.prev_hash) ≢ sha256 (content r)
      → verify_rows env o "" (xs ++ record r { entry = e } ∷ ys) ≡ broken_at e.id
  verify_rows-changed o xs r ys e whole changed =
      let (linked, rest) = verify_rows-tail o "" xs r ys whole in
      verify_rows-stale o "" xs (record r { entry = e }) ys
        (verify_rows-prefix o "" xs (r ∷ ys) whole) (λ same. changed (sym same ∙ linked.1))

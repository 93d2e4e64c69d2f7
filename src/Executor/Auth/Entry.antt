-- ===== src/Executor/Auth/Entry.antt =====
-- Who is let in.
use secure_openclaw_poc.Common.{
  Option, String, Text, arith, inr, none, refl, some, text_eq, true, ℕ, ◌≡◌, ◌≤◌, ◌⊎◌, Bool-cases,
  inl, Bool, if◌then◌else◌, false,
}
use secure_openclaw_poc.Executor.Auth.{
  Verdict, next, Request, truthy, bearer, with_provided, with_match, with_header, with_configured,
  auth_middleware, verify_confirm_token, with_expiry, with_query, with_route, authorize,
}

else_branch : (b : Bool) (v : Verdict) → (if b then next else v) ≡ next → b ≡ false → v ≡ next
else_branch true v h other = cc
else_branch false v h other = h

module _ (sha256 : Text → Text) (hmac : String → ℕ → Text) (coerce : Text → Option ℕ) where
  -- The request brings a text with the digest of the configured token, as a bearer token or, without an
  -- authorization header, as an API key.
  abbrev pub BringsToken : Request → (configured : Text) → Type 0
  BringsToken r configured =
      (provided : Text) × (((h : Text) × ((truthy r.authorization ≡ some h)
            × (bearer h ≡ some provided)))
        ⊎ ((truthy r.authorization ≡ none) × (truthy r.x_api_key ≡ some provided)))
      × (text_eq (sha256 provided) (sha256 configured) ≡ true)

  abbrev pub IsAuthenticated : (configured_token : Option Text) → Request → Type 0
  IsAuthenticated configured_token r =
      (truthy configured_token ≡ none)
      ⊎ ((configured : Text) × ((truthy configured_token ≡ some configured)
            × BringsToken r configured))

  -- The request is for one confirmation and brings its digest, which has not expired.
  abbrev pub HasConfirmToken : (now : ℕ) → Request → Type 0
  HasConfirmToken now r =
      (id : String) × ((r.confirm_id ≡ some id)
        × ((t : Text) × ((truthy r.token ≡ some t)
              × ((e : ℕ) × ((now ≤ e) × (text_eq (hmac id e) t ≡ true))))))

  with_provided-next :
      (hash provided : Text)
      → with_provided sha256 hash (some provided) ≡ next
      → text_eq (sha256 provided) hash ≡ true
  unfolding with_provided
  with_provided-next hash provided h = ground (arith, h)

  with_match-next :
      (hash : Text) (found : Option Text)
      → with_match sha256 hash found ≡ next
      → (provided : Text) × (found ≡ some provided) × (text_eq (sha256 provided) hash ≡ true)
  unfolding with_match
  with_match-next hash none h = cc
  with_match-next hash (some provided) h = (provided, refl, with_provided-next hash provided h)

  with_header-next :
      (hash : Text) (header key : Option Text)
      → with_header sha256 hash header key ≡ next
      → (provided : Text) × (((h : Text) × ((header ≡ some h) × (bearer h ≡ some provided)))
          ⊎ ((header ≡ none) × (key ≡ some provided)))
        × (text_eq (sha256 provided) hash ≡ true)
  unfolding with_header with_provided
  with_header-next hash none none h = cc
  with_header-next hash none (some key) h = (key, inr (refl, refl), with_provided-next hash key h)
  with_header-next hash (some header) key h =
      let (provided, found, same) = with_match-next hash (bearer header) h in
      (provided, inl (header, (refl, found)), same)

  with_configured-next :
      (configured : Option Text) (r : Request)
      → with_configured sha256 configured r ≡ next
      → (configured ≡ none) ⊎ ((token : Text) × ((configured ≡ some token) × BringsToken r token))
  unfolding with_configured
  with_configured-next none r h = inl refl
  with_configured-next (some token) r h = inr (
    token,
    (refl, with_header-next (sha256 token) (truthy r.authorization) (truthy r.x_api_key) h),
  )

  with_expiry-next :
      (now : ℕ) (id : String) (token : Text) (o : Option ℕ)
      → with_expiry sha256 hmac coerce now id token o ≡ next
      → (expires : ℕ) × ((now ≤ expires) × (text_eq (hmac id expires) token ≡ true))
  unfolding with_expiry verify_confirm_token
  with_expiry-next now id token none h = cc
  with_expiry-next now id token (some expires) h = (expires, (ground (arith, h), ground (arith, h)))

  with_query-next :
      (configured : Option Text) (now : ℕ) (r : Request) (id : String) (token expires : Option Text)
      → with_query sha256 hmac coerce configured now r id token expires ≡ next
      → IsAuthenticated configured r
        ⊎ ((t : Text) × ((token ≡ some t)
              × ((e : ℕ) × ((now ≤ e) × (text_eq (hmac id e) t ≡ true)))))
  unfolding with_query auth_middleware
  with_query-next configured now r id none none h =
      inl (with_configured-next (truthy configured) r h)
  with_query-next configured now r id none (some e) h = cc
  with_query-next configured now r id (some t) none h = cc
  with_query-next configured now r id (some t) (some e) h =
      inr (t, (refl, with_expiry-next now id t (coerce e) h))

  with_route-next :
      (configured : Option Text) (now : ℕ) (r : Request) (route : Option String)
      → with_route sha256 hmac coerce configured now r route ≡ next
      → IsAuthenticated configured r
        ⊎ ((id : String) × ((route ≡ some id)
              × ((t : Text) × ((truthy r.token ≡ some t)
                    × ((e : ℕ) × ((now ≤ e) × (text_eq (hmac id e) t ≡ true)))))))
  unfolding with_route auth_middleware
  with_route-next configured now r none h = inl (with_configured-next (truthy configured) r h)
  with_route-next configured now r (some id) h =
      elim (with_query-next configured now r id (truthy r.token) (truthy r.expires) h) [
        | inl brought ↦ inl brought
        | inr rest ↦ inr (id, (refl, rest))
      ]

  -- A request that is let in is one for the health of the service; or no token is configured; or it
  -- brings a text with the digest of the configured token; or it is for one confirmation, and brings
  -- the digest of that confirmation and of a time that has not passed.
  pub authorize-next :
      (configured : Option Text) (now : ℕ) (r : Request)
      → authorize sha256 hmac coerce configured now r ≡ next
      → (r.is_health ≡ true) ⊎ (IsAuthenticated configured r ⊎ HasConfirmToken now r)
  unfolding authorize
  authorize-next configured now r h = elim (Bool-cases r.is_health) [
    | inl health ↦ inl health
    | inr other ↦ inr (
        with_route-next configured now r r.confirm_id (
          else_branch r.is_health (with_route sha256 hmac coerce configured now r r.confirm_id) h
            other))
  ]

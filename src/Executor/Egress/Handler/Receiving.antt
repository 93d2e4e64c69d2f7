-- ===== src/Executor/Egress/Handler/Receiving.antt =====
-- What the caller of the egress proxy gets.

use secure_openclaw_poc.Common.{
  ◌&&◌, ◌==◌, All, All-filter, Bool-cases, List, Option, Text, [], if_elim, inl, inr, map, none,
  refl, some, subst, sym, true, ℕ, ◌≡◌, ◌⊎◌, ◌+◌, ◌++◌, ap, arith, filter, length, length-append,
  ltb, ◌∙◌, ◌∷◌, ◌≤◌,
}
use secure_openclaw_poc.Executor.Egress.Handler.Cases.{handle_egress_elim, IsBound}
use secure_openclaw_poc.Executor.Egress.Handler.{
  handle_egress, is_allowed_header, respond, send, with_interceptor, with_updates, Env, Event,
  with_body, with_answer,
}
use secure_openclaw_poc.Crypto.UseCredential.{Vault}
use secure_openclaw_poc.Executor.Egress.Telegram.{
  TelegramInterceptor, TelegramUpdate, intercept_telegram_updates, Intercepted,
}
use secure_openclaw_poc.Executor.Egress.Proxy.{
  Body, EgressRequest, Forward, Incoming, Reply, UpstreamResponse, Url, allows_body, broken,
  forwarded, is_telegram_get_updates, over_limit, read_body, request, telegram, whole, Response,
  refused, add_bytes,
}

-- The chunks one after the other.
abbrev pub joined_chunks : List (List ℕ) → List ℕ
joined_chunks [] = []
joined_chunks (c ∷ cs) = c ++ joined_chunks cs

-- The readings are the chunks of the bytes, which are within the limit.
abbrev ReadWithin : (max_bytes total : ℕ) → List (Option (List ℕ)) → (bytes : List ℕ) → Type 0
ReadWithin max_bytes total readings bytes =
    (chunks : List (List ℕ)) × (readings ≡ map (λ (c : List ℕ). some c) chunks)
    × (bytes ≡ joined_chunks chunks)
    × (total ≤ max_bytes → total + length bytes ≤ max_bytes)

add_bytes-whole :
    (first bytes : List ℕ) (b : Body)
    → add_bytes first b ≡ whole bytes
    → (more : List ℕ) × (b ≡ whole more) × (bytes ≡ first ++ more)
add_bytes-whole first bytes (whole more) e =
    let same : whole (first ++ more) ≡ whole bytes = e in (more, refl, cc)
add_bytes-whole first bytes over_limit e = cc
add_bytes-whole first bytes broken e = cc

read_body-ReadWithin :
    (max_bytes total : ℕ) (readings : List (Option (List ℕ))) (bytes : List ℕ)
    → read_body max_bytes total readings ≡ whole bytes
    → ReadWithin max_bytes total readings bytes
unfolding read_body
read_body-ReadWithin max_bytes total [] bytes e =
    let none_read : [] ≡ bytes = cc in
    ([], refl, sym none_read, λ below. rw (sym none_read) (omega (arith, below)))
read_body-ReadWithin max_bytes total (none ∷ rs) bytes e = cc
read_body-ReadWithin max_bytes total (some c ∷ rs) bytes e =
    elim (Bool-cases (ltb max_bytes (total + length c))) [
      | inl above ↦ let clash : over_limit ≡ whole bytes = rw above at e in cc
      | inr fits ↦
          let (more, rest, whole_bytes) =
            add_bytes-whole c bytes (read_body max_bytes (total + length c) rs) (rw fits at e) in
          let (chunks, read, joined, within) =
            read_body-ReadWithin max_bytes (total + length c) rs more rest in
          let below : total + length c ≤ max_bytes = ground (arith, fits) in
          let all_below : (total + length c) + length more ≤ max_bytes = within below in
          (
            c ∷ chunks,
            ap (λ (l : List (Option (List ℕ))). some c ∷ l) read,
            whole_bytes ∙ ap (λ (l : List ℕ). c ++ l) joined,
            λ before. rw (whole_bytes, length-append c more) (omega (arith, all_below)),
          )
    ]

module _ {S : Type 0} (env : Env S) where
  -- The text before the redaction: what was read, perhaps with other updates in it.
  abbrev pub IsRaw : (bytes : List ℕ) (raw_body : Text) → Type 0
  IsRaw bytes raw_body =
      (raw_body ≡ env.decode bytes)
      ⊎ ((places : List Intercepted) × (raw_body ≡ env.with_updates (env.decode bytes) places))

  -- A response that was made from an answer: its body is redacted, its headers are those of the answer
  -- that are of the list and not the length, which may have changed, and the answer is within the limit.
  pub record IsClean (a : UpstreamResponse) (status : ℕ) (headers : List (Text × Text))
      (body : Text) : Type 0 where
    pub chunks : List (List ℕ)
    pub read : a.readings ≡ map (λ (c : List ℕ). some c) chunks
    pub bytes : List ℕ
    pub joined : bytes ≡ joined_chunks chunks
    pub within : length bytes ≤ env.max_response_bytes
    pub redacted : (raw_body : Text) × IsRaw bytes raw_body × (body ≡ env.redact raw_body)
    pub listed : All (λ h. is_allowed_header env h.0 ≡ true) headers
    pub received : headers ≡ filter (λ h. is_allowed_header env h.0) a.headers
    pub same_status : status ≡ a.status
    pub bodied : allows_body status ≡ true

  abbrev pub Comes : (vault : Option Vault) → Incoming → Response → Type 0
  Comes vault incoming (refused status why) = Unit
  Comes vault incoming (forwarded status headers body) =
      (r : EgressRequest) × (u : Url) × (f : Forward) × (a : UpstreamResponse) × (incoming
        ≡ request r)
      × IsBound env vault r u f
      × (env.fetch r.method f ≡ some a)
      × IsClean a status headers body

  -- How an answer `a` with the bytes `bytes` comes.
  abbrev ComesFrom : UpstreamResponse → Response → Type 0
  ComesFrom a (refused status why) = Unit
  ComesFrom a (forwarded status headers body) = IsClean a status headers body

  module _ (s : S) (r : EgressRequest) (u : Url) (a : UpstreamResponse) (bytes : List ℕ)
      (read : read_body env.max_response_bytes 0 a.readings ≡ whole bytes) where
    respond-ComesFrom :
        (t : S) (before : List Event) (raw_body : Text)
        → IsRaw bytes raw_body
        → ComesFrom a (respond env t r u a before raw_body).response
    unfolding respond
    respond-ComesFrom t before raw_body raw = elim (Bool-cases (allows_body a.status)) [
      | inl with_one ↦ rw with_one (record {
        chunks = (read_body-ReadWithin env.max_response_bytes 0 a.readings bytes read).0;
        read = (read_body-ReadWithin env.max_response_bytes 0 a.readings bytes read).1;
        bytes = bytes;
        joined = (read_body-ReadWithin env.max_response_bytes 0 a.readings bytes read).2;
        within =
            let below = (read_body-ReadWithin env.max_response_bytes 0 a.readings bytes read).3 in
            omega (arith, below (omega arith));
        redacted = (raw_body, raw, refl);
        listed =
            All-filter (λ (h : Text × Text). is_allowed_header env h.0 ≡ true)
              (λ h. is_allowed_header env h.0) a.headers (λ h e. e);
        received = refl;
        same_status = refl;
        bodied = with_one;
      })
      | inr bodiless ↦ rw bodiless tt
    ]

    with_updates-ComesFrom :
        (i : TelegramInterceptor S) (o : Option (List TelegramUpdate))
        → ComesFrom a (with_updates env s r u a (env.decode bytes) i o).response
    with_updates-ComesFrom i none = respond-ComesFrom s [] (env.decode bytes) (inl refl)
    with_updates-ComesFrom i (some us) =
        let (end, (actions, places)) = intercept_telegram_updates i s us in
        respond-ComesFrom end (map telegram actions) (env.with_updates (env.decode bytes) places)
          (inr (places, refl))

    with_interceptor-ComesFrom :
        (i : Option (TelegramInterceptor S))
        → ComesFrom a (with_interceptor env s r u a (env.decode bytes) i).response
    unfolding with_interceptor
    with_interceptor-ComesFrom none = respond-ComesFrom s [] (env.decode bytes) (inl refl)
    with_interceptor-ComesFrom (some i) =
        if_elim (λ (reply : Reply S). ComesFrom a reply.response)
          (is_telegram_get_updates env u && a.status == 200)
          (with_updates env s r u a (env.decode bytes) i (env.updates_of (env.decode bytes)))
          (respond env s r u a [] (env.decode bytes))
          (λ polled. with_updates-ComesFrom i (env.updates_of (env.decode bytes)))
          (λ plain. respond-ComesFrom s [] (env.decode bytes) (inl refl))

  with_body-ComesFrom :
      (s : S) (r : EgressRequest) (u : Url) (a : UpstreamResponse) (b : Body)
      → read_body env.max_response_bytes 0 a.readings ≡ b
      → ComesFrom a (with_body env s r u a b).response
  unfolding with_body
  with_body-ComesFrom s r u a (whole bytes) e =
      with_interceptor-ComesFrom s r u a bytes e env.telegram_interceptor
  with_body-ComesFrom s r u a over_limit e = tt
  with_body-ComesFrom s r u a broken e = tt

  module _ (vault : Option Vault) (r : EgressRequest) (u : Url) (f : Forward)
      (bound : IsBound env vault r u f) where
    comes :
        (a : UpstreamResponse) (p : Response)
        → env.fetch r.method f ≡ some a
        → ComesFrom a p
        → Comes vault (request r) p
    comes a (refused status why) e c = tt
    comes a (forwarded status headers body) e c = (r, u, f, a, refl, bound, e, c)

    with_answer-Comes :
        (s : S) (o : Option UpstreamResponse)
        → env.fetch r.method f ≡ o
        → Comes vault (request r) (with_answer env s r u o).response
    unfolding with_answer
    with_answer-Comes s none e = tt
    with_answer-Comes s (some a) e =
        comes a (with_body env s r u a (read_body env.max_response_bytes 0 a.readings)).response e
          (with_body-ComesFrom s r u a (read_body env.max_response_bytes 0 a.readings) refl)

  -- A response that is forwarded is made from the answer of the upstream service to the request that was
  -- sent, which is bound to its service as the sent requests are: its body is a redacted text, made of
  -- the chunks of the answer, whose length in all is within the limit of bytes, or of these with other
  -- updates in them; and its headers are headers of the answer whose names are of the list.
  pub handle_egress-Comes :
      (vault : Option Vault) (s : S) (incoming : Incoming)
      → Comes vault incoming (handle_egress env vault s incoming).response
  handle_egress-Comes vault s incoming =
      handle_egress_elim env (λ (reply : Reply S). Comes vault incoming reply.response) vault s
        (λ why. tt) (λ r u result status why. tt) incoming
        (λ r e u f b.
          subst (λ (i : Incoming). Comes vault i (send env s r u f).response) (sym e)
            (with_answer-Comes vault r u f b s (env.fetch r.method f) refl))

-- ===== src/Executor/Egress/Handler/Sending.antt =====
-- What the egress proxy sends, and what it writes to the log.

-- Of a request that is sent.
use secure_openclaw_poc.Common.{
  ◌&&◌, ◌==◌, All, All-append, Bool, Bool-cases, List, Option, Text, [], false, filter,
  filter-append, if_elim, inl, inr, length, map, none, refl, some, true, ℕ, ◌∷◌, ◌≡◌, ◌⊎◌, ap,
  subst, sym, ◌∙◌,
}
use secure_openclaw_poc.Executor.Egress.Handler.{
  handle_egress, respond, with_body, with_interceptor, with_updates, Event, Env, with_answer,
  refuse,
}
use secure_openclaw_poc.Executor.Egress.Placeholders.Kept.{
  Begins, IsPlain, substitute_placeholders-Begins,
}
use secure_openclaw_poc.Executor.Egress.Placeholders.{substitute_placeholders}
use secure_openclaw_poc.Common.Outcome.{returned, >>=-returned}
use secure_openclaw_poc.Crypto.UseCredential.{Vault}
use secure_openclaw_poc.Executor.Egress.Handler.Cases.{handle_egress_elim}
use secure_openclaw_poc.Executor.Egress.Proxy.{
  EgressRequest, Forward, Incoming, Refusal, Reply, UpstreamResponse, Url, allows_body, broken,
  fetches, is_telegram_get_updates, logs, over_limit, read_body, request, telegram, upstream_error,
  whole, refused, substitute_body, substitute_headers, substitute_request,
}
use secure_openclaw_poc.Executor.Egress.Telegram.{
  Action, TelegramInterceptor, TelegramUpdate, intercept_telegram_updates,
}

abbrev pub OnFetch : (Text → Forward → Type 0) → Event → Type 0
OnFetch P (fetches method f timeout_ms) = P method f
OnFetch P (telegram a) = Unit
OnFetch P (logs e) = Unit

abbrev pub Sends : (Text → Forward → Type 0) → List Event → Type 0
Sends P events = All (OnFetch P) events

abbrev is_entry : Event → Bool
is_entry (fetches method f timeout_ms) = false
is_entry (telegram a) = false
is_entry (logs e) = true

-- The number of entries that were written.
unfoldable pub entries : List Event → ℕ
entries events = length (filter is_entry events)

module _ (P : Text → Forward → Type 0) where
  telegram-Sends : (actions : List Action) → Sends P (map telegram actions)
  telegram-Sends [] = tt
  telegram-Sends (a ∷ more) = (tt, telegram-Sends more)

telegram-entries : (actions : List Action) → filter is_entry (map telegram actions) ≡ []
telegram-entries [] = refl
telegram-entries (a ∷ more) = telegram-entries more

module _ {S : Type 0} (env : Env S) where
  -- One entry; or two where the response of the upstream service allows no body, which the caller then
  -- takes for a failure.
  abbrev pub IsLogged : Reply S → Type 0
  IsLogged reply =
      (entries reply.events ≡ 1)
      ⊎ ((entries reply.events ≡ 2) × (reply.response ≡ refused 502 upstream_error))

  -- What is true of the answer to a sent request: nothing more is sent, and it is logged.
  record IsFinished (P : Text → Forward → Type 0) (reply : Reply S) : Type 0 where
    none_sent : Sends P reply.events
    logged : IsLogged reply

  module _ (P : Text → Forward → Type 0) where
    finish :
        (s : S) (r : EgressRequest) (u : Url) (a : UpstreamResponse) (actions : List Action)
        (raw_body : Text)
        → IsFinished P (respond env s r u a (map telegram actions) raw_body)
    unfolding respond entries
    finish s r u a actions raw_body = elim (Bool-cases (allows_body a.status)) [
      | inl allowed_body ↦ rw allowed_body (record {
        none_sent =
            All-append (OnFetch P) (map telegram actions) _ (telegram-Sends P actions) (tt, tt);
        logged =
            inl (rw (filter-append is_entry (map telegram actions), telegram-entries actions) refl);
      })
      | inr bodiless ↦ rw bodiless (record {
        none_sent =
            All-append (OnFetch P) _ _
              (All-append (OnFetch P) (map telegram actions) _ (telegram-Sends P actions) (tt, tt))
              (tt, tt);
        logged = inr (
          rw
              (
                filter-append is_entry,
                filter-append is_entry (map telegram actions),
                telegram-entries actions,
              )
              refl,
          refl,
        );
      })
    ]

    with_interceptor-IsFinished :
        (s : S) (r : EgressRequest) (u : Url) (a : UpstreamResponse) (raw_body : Text)
        (i : Option (TelegramInterceptor S))
        → IsFinished P (with_interceptor env s r u a raw_body i)
    unfolding with_interceptor
    with_interceptor-IsFinished s r u a raw_body none = finish s r u a [] raw_body
    with_interceptor-IsFinished s r u a raw_body (some i) =
        if_elim (IsFinished P) (is_telegram_get_updates env u && a.status == 200)
          (with_updates env s r u a raw_body i (env.updates_of raw_body))
          (respond env s r u a [] raw_body) (λ polled. updated (env.updates_of raw_body))
          (λ plain. finish s r u a [] raw_body)
      where
        updated :
            (o : Option (List TelegramUpdate))
            → IsFinished P (with_updates env s r u a raw_body i o)
        updated none = finish s r u a [] raw_body
        updated (some us) =
            let (end, (actions, places)) = intercept_telegram_updates i s us in
            finish end r u a actions (env.with_updates raw_body places)

    with_answer-IsFinished :
        (s : S) (r : EgressRequest) (u : Url) (o : Option UpstreamResponse)
        → IsFinished P (with_answer env s r u o)
    unfolding with_answer with_body entries
    with_answer-IsFinished s r u none = record { none_sent = (tt, tt); logged = inl refl }
    with_answer-IsFinished s r u (some a) =
        elim (read_body env.max_response_bytes 0 a.readings)
          as (λ b. IsFinished P (with_body env s r u a b)) [
            | whole bytes ↦
                with_interceptor-IsFinished s r u a (env.decode bytes) env.telegram_interceptor
            | over_limit ↦ record { none_sent = (tt, tt); logged = inl refl }
            | broken ↦ record { none_sent = (tt, tt); logged = inl refl }
          ]

  substitute_request-url :
      (vault : Vault) (service_id : Text) (r : EgressRequest) (f : Forward)
      → substitute_request env vault service_id r ≡ returned f
      → substitute_placeholders r.url vault service_id ≡ returned f.url
  unfolding substitute_request
  substitute_request-url vault service_id r f h =
      let (url, filled, after_url) =
        >>=-returned (substitute_placeholders r.url vault service_id) _ h in
      let (headers, done_headers, after_headers) =
        >>=-returned (substitute_headers env vault service_id r.headers) _ after_url in
      let (body, done_body, last) =
        >>=-returned (substitute_body env vault service_id r.body) _ after_headers in
      let same : record { url = url; headers = headers; body = body } ≡ f = cc in
      filled ∙ ap (λ (g : Forward). returned g.url) same

  -- If the URL of a request has a start before a slash in which no placeholder begins, as the scheme and
  -- the host where placeholders stand in the path only, then whatever goes out for it goes to a URL
  -- with the same start before a slash.
  pub handle_egress-Begins :
      (vault : Option Vault) (s : S) (r : EgressRequest) (start : Text)
      → IsPlain start r.url
      → Sends (λ method f. Begins start f.url) (handle_egress env vault s (request r)).events
  handle_egress-Begins vault s r start plain =
      handle_egress_elim env
        (λ (reply : Reply S). Sends (λ method f. Begins start f.url) reply.events) vault s
        (λ why. tt) (λ q u result status why. (tt, tt)) (request r)
        (λ q e u f b.
          let same : q.url ≡ r.url =
            ap (λ (i : Incoming). elim i [ request x ↦ x.url | _ ↦ [] ]) (sym e) in
          let kept =
            substitute_placeholders-Begins start q.url b.credentials b.service_id f.url
              (subst (IsPlain start) (sym same) plain)
              (substitute_request-url b.credentials b.service_id q f b.filled) in
          (kept, (with_answer-IsFinished _ s q u (env.fetch q.method f)).none_sent))

  -- Every call that is not refused as malformed is logged once; or a second time, where its caller is
  -- told of an error of the upstream service.
  pub handle_egress-IsLogged :
      (vault : Option Vault) (s : S) (incoming : Incoming)
      → ((why : Refusal) × ((handle_egress env vault s incoming) ≡ refuse env s [] 400 why))
        ⊎ IsLogged (handle_egress env vault s incoming)
  unfolding entries
  handle_egress-IsLogged vault s incoming =
      handle_egress_elim env
        (λ (reply : Reply S).
          ((why : Refusal) × (reply ≡ refuse env s [] 400 why)) ⊎ IsLogged reply)
        vault s (λ why. inl (why, refl)) (λ r u result status why. inr (inl refl)) incoming
        (λ r e u f b.
          inr (with_answer-IsFinished (λ method sent. Unit) s r u (env.fetch r.method f)).logged)

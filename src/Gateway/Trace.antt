-- ===== src/Gateway/Trace.antt =====
-- What trace_middleware adds to the answer and to the samples.
use rust_llm_gateway_semanti.Prelude.{
  ◌-◌, ◌≡◌, refl, ◌∙◌, ℕ, Option, none, some, ◌∷◌, Text, text, text_eq,
}
use rust_llm_gateway_semanti.Prelude.Maps.{get, get-insert}
use rust_llm_gateway_semanti.Services.{Services, IsVisible, IsDocumented}
use rust_llm_gateway_semanti.Metrics.{record_request_latency}
use rust_llm_gateway_semanti.Handlers.{full, Response, World, Env, others, now}
use rust_llm_gateway_semanti.Gateway.{
  Request, Web, insert_parsed, milliseconds, stamp, trace_middleware, routes, limited, build_router,
}

-- Neither changes the status nor the body.
insert_parsed_keeps :
    (name : Text) (val : Option Text) (r : Response)
    → ((insert_parsed name val r).status ≡ r.status) × ((insert_parsed name val r).body ≡ r.body)
insert_parsed_keeps name none r = (refl, refl)
insert_parsed_keeps name (some v) r = (refl, refl)

time_keeps_id :
    (val : Option Text) (r : Response) (id : Text)
    → get (text "x-request-id") r.headers ≡ some id
    → get (text "x-request-id") (insert_parsed (text "x-response-time-ms") val r).headers ≡ some id
unfolding text_eq
time_keeps_id none r id h = h
time_keeps_id (some v) r id h =
    get-insert (text "x-response-time-ms") (text "x-request-id") v r.headers ∙ h

module _ (services : Services) where
  open services use {header_value, Store}

  stamp_lem :
      (id : Text) (elapsed : ℕ) (r : Response)
      → header_value id ≡ some id
      → ((stamp services id elapsed r).status ≡ r.status)
        × ((stamp services id elapsed r).body ≡ r.body)
        × (get (text "x-request-id") (stamp services id elapsed r).headers ≡ some id)
  unfolding stamp text_eq
  stamp_lem id elapsed r valid =
      let named = insert_parsed (text "x-request-id") (header_value id) r in
      let time = header_value (milliseconds elapsed) in
      let (status₁, body₁) = insert_parsed_keeps (text "x-request-id") (header_value id) r in
      let (status₂, body₂) = insert_parsed_keeps (text "x-response-time-ms") time named in
      (
        status₂ ∙ status₁,
        body₂ ∙ body₁,
        time_keeps_id time named id
            (rw valid (get-insert (text "x-request-id") (text "x-request-id") id r.headers)),
      )

  -- A request within the body limit whose route answers with a full body, not a stream, is
  -- answered with the status and body that its route gives and leaves the state of the route, but
  -- for what other tasks do before the last reading of the clock; the answer carries the request's
  -- identifier, if that is visible ASCII, and the time from the first to the last reading of the
  -- clock is observed after all that the route observes.
  pub traced :
      (documented : IsDocumented services) (web : Web services) (env : Env Store) (req : Request)
      (w : World Store) (body : Text)
      → web.over_limit w.app.config.server.max_body_bytes req ≡ none
      → IsVisible (web.new_v4 w.tick)
      → (routes services web env req (now env w).0).1.body ≡ full body
      → let inner = routes services web env req (now env w).0 in
        let outer = build_router services web env req w in
        (outer.1.status ≡ inner.1.status)
        × (outer.1.body ≡ full body)
        × (get (text "x-request-id") outer.1.headers ≡ some (web.new_v4 w.tick))
        × (outer.0.app ≡ (now env inner.0).0.app)
        × (outer.0.samples
            ≡ record_request_latency (env.clock inner.0.tick - env.clock w.tick) ∷ inner.0.samples)
  unfolding build_router limited trace_middleware now others
  traced documented web env req w body small visible whole =
      let id = web.new_v4 w.tick in
      let inner = routes services web env req (now env w).0 in
      let elapsed = env.clock inner.0.tick - env.clock w.tick in
      let (status, same, named) =
        stamp_lem id elapsed inner.1 (documented.header_value_visible id visible) in
      rw small (status, same ∙ whole, named, refl, refl)

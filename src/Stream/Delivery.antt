-- ===== src/Stream/Delivery.antt =====
-- What the client receives, and when the error callback is called.
use rust_llm_gateway_semanti.Prelude.{
  ℕ, suc, ◌+◌, ◌≤◌, ◌≡◌, refl, ap, ◌∙◌, true, List, [], ◌∷◌, ◌++◌, map, Text, arith, ltb,
  if◌then◌else◌, Bool-cases, inl, inr,
}
use rust_llm_gateway_semanti.Services.{Services}
use rust_llm_gateway_semanti.Sse.{push}
use rust_llm_gateway_semanti.Stream.{
  Arrivals, ended, chunk, failed, Output, bytes, timed_out, broken, Callback, on_usage,
  on_stream_error, first_token, StreamState, start, note_content, note_usage, note_events, run,
  idle_timeout, proxy_stream_passthrough,
}

-- The chunks that arrive in time, up to an error.
abbrev pub received : ℕ → Arrivals → List Text
received idle (ended waited) = []
received idle (failed waited message) = []
received idle (chunk waited at data_bytes rest) =
    if ltb idle waited then [] else data_bytes ∷ received idle rest

-- What follows them.
abbrev pub ending : ℕ → Arrivals → List Output
ending idle (ended waited) = if ltb idle waited then timed_out ∷ [] else []
ending idle (failed waited message) =
    if ltb idle waited then timed_out ∷ [] else broken message ∷ []
ending idle (chunk waited at data_bytes rest) =
    if ltb idle waited then timed_out ∷ [] else ending idle rest

abbrev pub errors : List Callback → ℕ
errors [] = 0
errors (on_stream_error ∷ calls) = suc (errors calls)
errors (on_usage p c ∷ calls) = errors calls
errors (first_token at ∷ calls) = errors calls

abbrev pub length_of : List Output → ℕ
length_of [] = 0
length_of (_ ∷ outputs) = suc (length_of outputs)

errors-append : (a b : List Callback) → errors (a ++ b) ≡ errors a + errors b
errors-append [] b = omega arith
errors-append (on_stream_error ∷ a) b = omega (arith, errors-append a b)
errors-append (on_usage p c ∷ a) b = errors-append a b
errors-append (first_token at ∷ a) b = errors-append a b

ending_length : (idle : ℕ) (upstream : Arrivals) → length_of (ending idle upstream) ≤ 1
ending_length idle (ended waited) = ground arith
ending_length idle (failed waited message) = ground arith
ending_length idle (chunk waited at data_bytes rest) = ground (arith, ending_length idle rest)

module _ (services : Services) where
  outputs_lem :
      (idle : ℕ) (st : StreamState) (upstream : Arrivals)
      → (run services idle st upstream).0
        ≡ map bytes (received idle upstream) ++ ending idle upstream
  unfolding run
  outputs_lem idle st (ended waited) = ground arith
  outputs_lem idle st (failed waited message) = ground arith
  outputs_lem idle st (chunk waited at data_bytes rest) = elim (Bool-cases (ltb idle waited)) [
    | inl late ↦ rw late refl
    | inr in_time ↦ rw in_time (
        ap (λ l. bytes data_bytes ∷ l)
          (outputs_lem idle
            (note_events services at (record st { buffer = (push st.buffer data_bytes).1 })
              (push st.buffer data_bytes).0).0
            rest))
  ]

  -- Events report no error, and leave the error callback where it is.
  note_event_errors :
      (at : ℕ) (st : StreamState) (event : Text)
      → ((note_content services at st event).0.error_pending ≡ st.error_pending)
        × ((note_usage services st event).0.error_pending ≡ st.error_pending)
        × (errors (note_content services at st event).1 ≡ 0)
        × (errors (note_usage services st event).1 ≡ 0)
  unfolding note_content note_usage
  note_event_errors at st event = ground arith

  note_events-errors :
      (at : ℕ) (st : StreamState) (events : List Text)
      → ((note_events services at st events).0.error_pending ≡ st.error_pending)
        × (errors (note_events services at st events).1 ≡ 0)
  unfolding note_events
  note_events-errors at st [] = (refl, refl)
  note_events-errors at st (event ∷ events) =
      let (st₁, calls₁) = note_content services at st event in
      let (st₂, calls₂) = note_usage services st₁ event in
      let (keep₁, _, none₁, _) = note_event_errors at st event in
      let (_, keep₂, _, none₂) = note_event_errors at st₁ event in
      let (keep₃, none₃) = note_events-errors at st₂ events in
      let calls₃ = (note_events services at st₂ events).1 in
      let total : errors (calls₁ ++ calls₂ ++ calls₃) ≡ 0 = omega (
        arith,
        errors-append (calls₁ ++ calls₂) calls₃,
        errors-append calls₁ calls₂,
        none₁,
        none₂,
        none₃,
      ) in
      (keep₃ ∙ keep₂ ∙ keep₁, total)

  errors_lem :
      (idle : ℕ) (st : StreamState) (upstream : Arrivals)
      → st.error_pending ≡ true
      → errors (run services idle st upstream).1 ≡ length_of (ending idle upstream)
  unfolding run
  errors_lem idle st (ended waited) pending = ground arith
  errors_lem idle st (failed waited message) pending = ground arith
  errors_lem idle st (chunk waited at data_bytes rest) pending =
      elim (Bool-cases (ltb idle waited)) [
        | inl late ↦ ground arith
        | inr in_time ↦
            let st₀ = record st { buffer = (push st.buffer data_bytes).1 } in
            let (st', calls) = note_events services at st₀ (push st.buffer data_bytes).0 in
            let (keep, none) = note_events-errors at st₀ (push st.buffer data_bytes).0 in
            rw in_time (
              omega (
                arith,
                errors-append calls (run services idle st' rest).1,
                none,
                errors_lem idle st' rest (keep ∙ pending),
              ))
      ]

  -- The client is given the chunks that arrived in time, unchanged and in order, then one error if
  -- the upstream stalled or failed; the error callback is called once in that case and otherwise
  -- never.
  pub passthrough :
      (upstream : Arrivals) (seconds : ℕ)
      → let r = proxy_stream_passthrough services upstream seconds in
        let idle = idle_timeout seconds in
        (r.outputs ≡ map bytes (received idle upstream) ++ ending idle upstream)
        × (errors r.callbacks ≡ length_of (ending idle upstream))
        × (length_of (ending idle upstream) ≤ 1)
  unfolding proxy_stream_passthrough
  passthrough upstream seconds =
      let idle = idle_timeout seconds in
      (
        outputs_lem idle start upstream,
        errors_lem idle start upstream refl,
        ending_length idle upstream,
      )

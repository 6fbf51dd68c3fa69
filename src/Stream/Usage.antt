-- ===== src/Stream/Usage.antt =====
-- Which usage is reported, and the first content token, whatever the chunks.
use rust_llm_gateway_semanti.Prelude.{
  ℕ, ◌≡◌, refl, ap, sym, ◌∙◌, Bool, not, none, some, List, [], ◌∷◌, ◌++◌, Text, arith, ltb,
  if◌then◌else◌, Bool-cases, Option-cases, inl, inr, append_assoc,
}
use rust_llm_gateway_semanti.Services.{Services}
use rust_llm_gateway_semanti.Sse.{find_event_end, push, extract_usage}
use rust_llm_gateway_semanti.Sse.Framing.{push-push, push_rest, push_nil, concat}
use rust_llm_gateway_semanti.Stream.{
  Arrivals, ended, chunk, failed, Callback, on_usage, on_stream_error, first_token, StreamState,
  start, note_content, note_usage, note_events, run, idle_timeout, proxy_stream_passthrough,
}
use rust_llm_gateway_semanti.Stream.Delivery.{received}

-- The usages that are reported.
abbrev pub usages : List Callback → List (ℕ × ℕ)
usages [] = []
usages (on_stream_error ∷ calls) = usages calls
usages (on_usage p c ∷ calls) = (p, c) ∷ usages calls
usages (first_token at ∷ calls) = usages calls

usages-append : (a b : List Callback) → usages (a ++ b) ≡ usages a ++ usages b
usages-append [] b = refl
usages-append (on_stream_error ∷ a) b = usages-append a b
usages-append (on_usage p c ∷ a) b = ap (λ l. (p, c) ∷ l) (usages-append a b)
usages-append (first_token at ∷ a) b = usages-append a b

module _ (services : Services) where
  -- The usage of the first event that has one.
  pub first_usage : List Text → List (ℕ × ℕ)
  first_usage [] = []
  first_usage (event ∷ events) = elim (extract_usage services event) [
    | none ↦ first_usage events
    | some u ↦ u ∷ []
  ]

  pub first_usage-cons :
      (event : Text) (events : List Text) (u : ℕ × ℕ)
      → extract_usage services event ≡ some u
      → first_usage (event ∷ events) ≡ u ∷ []
  unfolding first_usage
  first_usage-cons event events u found = ground arith

  -- The usage callback is there until the usage is charged.
  abbrev IsCoherent : StreamState → Type 0
  IsCoherent st = st.usage_pending ≡ not st.usage_charged

  abbrev due : StreamState → List Text → List (ℕ × ℕ)
  due st events = if st.usage_charged then [] else first_usage events

  note_content_usage :
      (at : ℕ) (st : StreamState) (event : Text)
      → (usages (note_content services at st event).1 ≡ [])
        × ((note_content services at st event).0.usage_charged ≡ st.usage_charged)
        × ((note_content services at st event).0.usage_pending ≡ st.usage_pending)
        × ((note_content services at st event).0.buffer ≡ st.buffer)
  unfolding note_content
  note_content_usage at st event = ground arith

  -- One event: what it reports, and what is due after it, make up what was due before it.
  note_usage-due :
      (st : StreamState) (event : Text) (events : List Text)
      → IsCoherent st
      → (usages (note_usage services st event).1 ++ due (note_usage services st event).0 events
          ≡ due st (event ∷ events))
        × IsCoherent (note_usage services st event).0
        × ((note_usage services st event).0.buffer ≡ st.buffer)
  unfolding note_usage first_usage
  note_usage-due st event events coherent = elim (Option-cases (extract_usage services event)) [
    | inl nothing ↦ ground arith
    | inr ((p, c), found) ↦ ground arith
  ]

  note_events-due :
      (at : ℕ) (st : StreamState) (events more : List Text)
      → IsCoherent st
      → (usages (note_events services at st events).1
            ++ due (note_events services at st events).0 more
          ≡ due st (events ++ more))
        × IsCoherent (note_events services at st events).0
        × ((note_events services at st events).0.buffer ≡ st.buffer)
  unfolding note_events
  note_events-due at st [] more coherent = (refl, coherent, refl)
  note_events-due at st (event ∷ events) more coherent =
      let (st₁, calls₁) = note_content services at st event in
      let (st₂, calls₂) = note_usage services st₁ event in
      let (none₁, charged₁, pending₁, buffer₁) = note_content_usage at st event in
      let coherent₁ : IsCoherent st₁ = cc in
      let (due₂, coherent₂, buffer₂) = note_usage-due st₁ event (events ++ more) coherent₁ in
      let (due₃, coherent₃, buffer₃) = note_events-due at st₂ events more coherent₂ in
      let calls₃ = (note_events services at st₂ events).1 in
      let later = due (note_events services at st₂ events).0 more in
      let reported : usages (calls₁ ++ calls₂ ++ calls₃) ≡ usages calls₂ ++ usages calls₃ =
        usages-append (calls₁ ++ calls₂) calls₃
        ∙ ap (λ l. l ++ usages calls₃)
            (usages-append calls₁ calls₂ ∙ ap (λ l. l ++ usages calls₂) none₁) in
      (
        ap (λ l. l ++ later) reported
            ∙ append_assoc (usages calls₂) (usages calls₃) later
            ∙ ap (λ l. usages calls₂ ++ l) due₃
            ∙ due₂
            ∙ ap (λ (b : Bool). if b then [] else first_usage (event ∷ events ++ more)) charged₁,
        coherent₃,
        buffer₃ ∙ buffer₂ ∙ buffer₁,
      )

  usages_lem :
      (idle : ℕ) (st : StreamState) (upstream : Arrivals)
      → IsCoherent st
      → find_event_end st.buffer ≡ none
      → usages (run services idle st upstream).1
        ≡ due st (push st.buffer (concat (received idle upstream))).0
  unfolding run first_usage
  usages_lem idle st (ended waited) coherent empty = ground (arith, push_nil st.buffer empty)
  usages_lem idle st (failed waited message) coherent empty =
      ground (arith, push_nil st.buffer empty)
  usages_lem idle st (chunk waited at data_bytes rest) coherent empty =
      elim (Bool-cases (ltb idle waited)) [
        | inl late ↦ ground (arith, push_nil st.buffer empty)
        | inr in_time ↦
            let (events, buffer) = push st.buffer data_bytes in
            let st₀ = record st { buffer = buffer } in
            let (st', calls) = note_events services at st₀ events in
            let left = concat (received idle rest) in
            let more = (push buffer left).0 in
            let (due', coherent', same) = note_events-due at st₀ events more coherent in
            let ih =
              usages_lem idle st' rest coherent' (rw same (push_rest st.buffer data_bytes)) in
            rw in_time (
              usages-append calls (run services idle st' rest).1
              ∙ ap (λ l. usages calls ++ l) (ih ∙ ap (λ b. due st' (push b left).0) same)
              ∙ due'
              ∙ ap (λ (r : List Text × Text). due st r.0)
                  (sym (push-push st.buffer data_bytes left)))
      ]

  -- The usage callback is called at most once, with the usage of the first event that has one
  -- among all the bytes received in time, whatever the chunks in which they arrived.
  pub usage_once :
      (upstream : Arrivals) (seconds : ℕ)
      → usages (proxy_stream_passthrough services upstream seconds).callbacks
        ≡ first_usage (push [] (concat (received (idle_timeout seconds) upstream))).0
  unfolding proxy_stream_passthrough
  usage_once upstream seconds =
      usages_lem (idle_timeout seconds) start upstream refl (unfold find_event_end in refl)

-- ===== src/Stream.antt =====
-- src/proxy/stream.rs: the pass-through of an upstream stream, with its idle timeout and callbacks.
-- The upstream is the list of what arrives, each after the time that the loop waited for it. The
-- two callbacks are values of the run: what they do is the business of their caller.
pub mod Delivery
pub mod Usage
pub mod NullUsage
use rust_llm_gateway_semanti.Prelude.{
  ℕ, ◌*◌, max, Bool, true, false, ◌&&◌, not, Option, none, some, List, [], ◌∷◌, ◌++◌, Text, text,
  ltb, if◌then◌else◌,
}
use rust_llm_gateway_semanti.Services.{Services}
use rust_llm_gateway_semanti.Sse.{push, is_content_event, extract_usage}

-- The end of the stream, a chunk (with the instant since the start of the request), or an error of
-- the network; the first number is the time waited. Nothing after an error is read.
pub data Arrivals : Type 0 where
  ended : ℕ → Arrivals
  chunk : ℕ → ℕ → Text → Arrivals → Arrivals
  failed : ℕ → Text → Arrivals

-- What the client is given: bytes, or an I/O error.
pub data Output : Type 0 where
  bytes : Text → Output
  timed_out : Output
  broken : Text → Output

pub data Callback : Type 0 where
  on_usage : ℕ → ℕ → Callback
  on_stream_error : Callback
  first_token : ℕ → Callback

-- `usage_pending` and `error_pending` tell whether the callback is still in its `Option`.
pub record StreamState : Type 0 where
  pub buffer : Text
  pub ttft_recorded : Bool
  pub usage_charged : Bool
  pub usage_pending : Bool
  pub error_pending : Bool

abbrev pub start : StreamState
start = record {
  buffer = [];
  ttft_recorded = false;
  usage_charged = false;
  usage_pending = true;
  error_pending = true;
}

abbrev pub second : ℕ
second = 1000000000

-- `guard.take()` and the call of the error callback.
abbrev pub report_error : StreamState → List Callback
report_error st = if st.error_pending then on_stream_error ∷ [] else []

module _ (services : Services) where
  -- The time-to-first-token part of the loop over the events. One task runs the loop, so `swap`
  -- returns what `load` has read.
  unfoldable pub note_content : ℕ → StreamState → Text → StreamState × List Callback
  note_content at st event =
      if not st.ttft_recorded && is_content_event services event
      then (record st { ttft_recorded = true }, first_token at ∷ [])
      else (st, [])

  abbrev charge : StreamState → Option (ℕ × ℕ) → StreamState × List Callback
  charge st none = (st, [])
  charge st (some (prompt, completion)) = (
    record st { usage_charged = true; usage_pending = false },
    if st.usage_pending then on_usage prompt completion ∷ [] else [],
  )

  -- The usage part.
  unfoldable pub note_usage : StreamState → Text → StreamState × List Callback
  note_usage st event =
      if st.usage_charged then (st, []) else charge st (extract_usage services event)

  unfoldable pub note_events : ℕ → StreamState → List Text → StreamState × List Callback
  note_events at st [] = (st, [])
  note_events at st (event ∷ events) =
      let (st₁, calls₁) = note_content at st event in
      let (st₂, calls₂) = note_usage st₁ event in
      let (st₃, calls₃) = note_events at st₂ events in (st₃, calls₁ ++ calls₂ ++ calls₃)

  -- The loop.
  unfoldable pub run : ℕ → StreamState → Arrivals → List Output × List Callback
  run idle st (ended waited) =
      if ltb idle waited then (timed_out ∷ [], report_error st) else ([], [])
  run idle st (failed waited message) =
      if ltb idle waited
      then (timed_out ∷ [], report_error st)
      else (broken message ∷ [], report_error st)
  run idle st (chunk waited at data_bytes rest) =
      if ltb idle waited
      then (timed_out ∷ [], report_error st)
      else (let (events, buffer) = push st.buffer data_bytes in
          let (st', calls) = note_events at (record st { buffer = buffer }) events in
          let (outputs, later) = run idle st' rest in (bytes data_bytes ∷ outputs, calls ++ later))

pub record StreamResponse : Type 0 where
  pub status : ℕ
  pub headers : List (Text × Text)
  pub outputs : List Output
  pub callbacks : List Callback

unfoldable pub idle_timeout : ℕ → ℕ
idle_timeout stream_idle_timeout_seconds = max stream_idle_timeout_seconds 1 * second

unfoldable pub proxy_stream_passthrough : Services → Arrivals → ℕ → StreamResponse
proxy_stream_passthrough services upstream stream_idle_timeout_seconds =
    let (outputs, callbacks) =
      run services (idle_timeout stream_idle_timeout_seconds) start upstream in
    record {
      status = 200;
      headers =
          (text "content-type", text "text/event-stream")
          ∷ (text "cache-control", text "no-cache")
          ∷ (text "x-accel-buffering", text "no")
          ∷ [];
      outputs = outputs;
      callbacks = callbacks;
    }

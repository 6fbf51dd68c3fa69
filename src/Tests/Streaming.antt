-- ===== src/Tests/Streaming.antt =====
-- The event parser and the pass-through at concrete inputs.
use rust_llm_gateway_semanti.Prelude.{
  ◌≤◌, ◌≡◌, List, [], ◌∷◌, refl, ◌++◌, map, none, some, Text, text, All,
}
use rust_llm_gateway_semanti.Sse.{push, find_event_end, drain, keep_utf8, lines, lines_from}
use rust_llm_gateway_semanti.Prelude.{strip_prefix, starts_with}
use rust_llm_gateway_semanti.Prelude.Utf8.{is_utf8}
use rust_llm_gateway_semanti.Stream.NullUsage.{null_usage_reported}
use rust_llm_gateway_semanti.Sse.Framing.{
  IsFrame, concat, all_utf8, push-push, push_frames, push_rest,
}
use rust_llm_gateway_semanti.Stream.{
  Arrivals, chunk, ended, failed, bytes, idle_timeout, proxy_stream_passthrough,
}
use rust_llm_gateway_semanti.Stream.Delivery.{received, ending, errors, length_of, passthrough}
use rust_llm_gateway_semanti.Stream.Usage.{usages, first_usage, usage_once}
use rust_llm_gateway_semanti.Tests.Samples.{sample_services}

abbrev first_half : Text
first_half = text "data: usageprompt"

abbrev second_half : Text
second_half = text "_tokensab" ++ b'\n' ∷ b'\n' ∷ text "data"

push-push_example : push [] (first_half ++ second_half) ≡ (
  (push [] first_half).0 ++ (push (push [] first_half).1 second_half).0,
  (push (push [] first_half).1 second_half).1,
)
push-push_example = push-push [] first_half second_half

push_frames_example :
    (frames : List Text) × (first_half ++ second_half
      ≡ concat frames ++ (push first_half second_half).1)
    × ((push first_half second_half).0 ≡ all_utf8 frames)
    × All IsFrame frames
push_frames_example = push_frames first_half second_half

push_rest_example : find_event_end (push first_half second_half).1 ≡ none
push_rest_example = push_rest first_half second_half

abbrev arrivals : Arrivals
arrivals = chunk 1 10 first_half (chunk 2 20 second_half (failed 3 (text "reset")))

passthrough_example :
    let r = proxy_stream_passthrough sample_services arrivals 30 in
    let idle = idle_timeout 30 in
    (r.outputs ≡ map bytes (received idle arrivals) ++ ending idle arrivals)
    × (errors r.callbacks ≡ length_of (ending idle arrivals))
    × (length_of (ending idle arrivals) ≤ 1)
passthrough_example = passthrough sample_services arrivals 30

usage_once_example :
    usages (proxy_stream_passthrough sample_services arrivals 30).callbacks
    ≡ first_usage sample_services (push [] (concat (received (idle_timeout 30) arrivals))).0
usage_once_example = usage_once sample_services arrivals 30

-- A usage that is null, and the real one after it.
abbrev null_payload : Text
null_payload = text "usagenull"

abbrev null_event : Text
null_event = text "data: " ++ null_payload

abbrev end_of_event : Text
end_of_event = b'\n' ∷ b'\n' ∷ []

abbrev counted_event : Text
counted_event = text "data: usageprompt_tokensab"

abbrev null_then_counted : Arrivals
null_then_counted =
    chunk 1 10 (null_event ++ end_of_event) (chunk 2 20 (counted_event ++ end_of_event) (ended 3))

null_first :
    (push [] (concat (received (idle_timeout 30) null_then_counted))).0
    ≡ (null_event ++ end_of_event) ∷ (counted_event ++ end_of_event) ∷ []
unfolding push drain find_event_end keep_utf8 is_utf8 idle_timeout
null_first = refl

null_line : lines (null_event ++ end_of_event) ≡ null_event ∷ [] ∷ []
unfolding lines lines_from
null_line = refl

null_found : sample_services.field null_payload (text "usage") ≡ some (text "null")
unfolding starts_with strip_prefix
null_found = refl

null_prompt : sample_services.field (text "null") (text "prompt_tokens") ≡ none
unfolding starts_with strip_prefix
null_prompt = refl

null_completion : sample_services.field (text "null") (text "completion_tokens") ≡ none
unfolding starts_with strip_prefix
null_completion = refl

null_usage_reported_example :
    usages (proxy_stream_passthrough sample_services null_then_counted 30).callbacks ≡ (0, 0) ∷ []
null_usage_reported_example =
    null_usage_reported sample_services (null_event ++ end_of_event) null_payload null_payload
      (text "null") ([] ∷ []) null_line (λ e. cc e) refl null_found null_prompt null_completion
      null_then_counted 30 ((counted_event ++ end_of_event) ∷ []) null_first

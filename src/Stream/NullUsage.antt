-- ===== src/Stream/NullUsage.antt =====
-- What a usage field that holds no counts, such as null, does to the usage of a stream.
use rust_llm_gateway_semanti.Prelude.{
  ℕ, ◌≡◌, ◌≢◌, ap, ◌∙◌, arith, none, some, List, [], ◌∷◌, ◌++◌, Text, text, text_eq_iff,
  strip_prefix-append,
}
use rust_llm_gateway_semanti.Services.{Services}
use rust_llm_gateway_semanti.Sse.{push, lines, line_value, token_count, usage_in, extract_usage}
use rust_llm_gateway_semanti.Sse.Framing.{concat}
use rust_llm_gateway_semanti.Stream.{Arrivals, idle_timeout, proxy_stream_passthrough}
use rust_llm_gateway_semanti.Stream.Delivery.{received}
use rust_llm_gateway_semanti.Stream.Usage.{usages, first_usage, first_usage-cons, usage_once}

module _ (services : Services) where
  open services use {Value, from_str, field}

  data_line :
      (payload : Text)
      → payload ≢ text "[DONE]"
      → line_value services (text "data: " ++ payload) ≡ from_str payload
  unfolding line_value
  data_line payload live =
      ground
        (arith, strip_prefix-append (text "data: ") payload, text_eq_iff payload (text "[DONE]"))

  no_count :
      (usage : Value) (name : Text) → field usage name ≡ none → token_count services usage name ≡ 0
  unfolding token_count
  no_count usage name absent = ground arith

  first_line :
      (line : Text) (rest : List Text) (val usage : Value)
      → line_value services line ≡ some val
      → field val (text "usage") ≡ some usage
      → usage_in services (line ∷ rest)
        ≡ some (
          token_count services usage (text "prompt_tokens"),
          token_count services usage (text "completion_tokens"),
        )
  unfolding usage_in
  first_line line rest val usage parsed found = ground arith

  module _ (event payload : Text) (val usage : Value) (others : List Text)
      (one_line : lines event ≡ (text "data: " ++ payload) ∷ others)
      (live : payload ≢ text "[DONE]") (parsed : from_str payload ≡ some val)
      (found : field val (text "usage") ≡ some usage)
      (no_prompt : field usage (text "prompt_tokens") ≡ none)
      (no_completion : field usage (text "completion_tokens") ≡ none) where
    extract_usage_null : extract_usage services event ≡ some (0, 0)
    unfolding extract_usage
    extract_usage_null =
        let prompt = no_count usage (text "prompt_tokens") no_prompt in
        let completion = no_count usage (text "completion_tokens") no_completion in
        ap (usage_in services) one_line
        ∙ first_line (text "data: " ++ payload) others val usage (data_line payload live ∙ parsed)
            found
        ∙ cc (prompt, completion)

    -- Where the first event of a stream begins with a data line whose JSON has a usage field
    -- without counts, such as null, the stream reports the usage (0, 0) and no other, whatever
    -- events follow.
    pub null_usage_reported :
        (upstream : Arrivals) (seconds : ℕ) (events : List Text)
        → (push [] (concat (received (idle_timeout seconds) upstream))).0 ≡ event ∷ events
        → usages (proxy_stream_passthrough services upstream seconds).callbacks ≡ (0, 0) ∷ []
    null_usage_reported upstream seconds events first =
        usage_once services upstream seconds
        ∙ ap (first_usage services) first
        ∙ first_usage-cons services event events (0, 0) extract_usage_null

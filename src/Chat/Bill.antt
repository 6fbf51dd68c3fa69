-- ===== src/Chat/Bill.antt =====
-- What an answer of the chat handler owes, read off the answer itself.
use rust_llm_gateway_semanti.Prelude.{
  arith, ℕ, ◌+◌, ◌%◌, ◌^◌, ◌≡◌, ◌⊎◌, sym, ◌∙◌, ap, Bool, false, Option, none, some, List, [], ◌∷◌,
  ◌++◌, map, Text, text, text_eq, if◌then◌else◌,
}
use rust_llm_gateway_semanti.Prelude.Maps.{get}
use rust_llm_gateway_semanti.Services.{Services}
use rust_llm_gateway_semanti.Sse.{push}
use rust_llm_gateway_semanti.Sse.Framing.{concat}
use rust_llm_gateway_semanti.Stream.{
  Arrivals, Output, bytes, timed_out, broken, ended, chunk, failed, idle_timeout,
  proxy_stream_passthrough,
}
use rust_llm_gateway_semanti.Stream.Delivery.{received, ending, passthrough}
use rust_llm_gateway_semanti.Stream.Usage.{usages, first_usage, usage_once}
use rust_llm_gateway_semanti.Prelude.Results.{Result, ok, err}
use rust_llm_gateway_semanti.Error.{AppError}
use rust_llm_gateway_semanti.Handlers.{full, streamed, Response, Env, header_failure}
use rust_llm_gateway_semanti.Attempts.{usage_of}

-- The bytes that a client is given.
abbrev pub delivered : List Output → Text
delivered [] = []
delivered (bytes t ∷ outputs) = t ++ delivered outputs
delivered (timed_out ∷ outputs) = delivered outputs
delivered (broken message ∷ outputs) = delivered outputs

delivered-ending : (idle : ℕ) (upstream : Arrivals) → delivered (ending idle upstream) ≡ []
delivered-ending idle (ended waited) = ground arith
delivered-ending idle (failed waited message) = ground arith
delivered-ending idle (chunk waited at data_bytes rest) = ground (arith, delivered-ending idle rest)

delivered-append :
    (l : List Text) (o : List Output) → delivered o ≡ [] → delivered (map bytes l ++ o) ≡ concat l
delivered-append [] o nothing = nothing
delivered-append (t ∷ l) o nothing = ap (λ u. t ++ u) (delivered-append l o nothing)

abbrev pub first_of : List (ℕ × ℕ) → Option ℕ
first_of [] = none
first_of ((p, c) ∷ rest) = some ((p + c) % 2 ^ 64)

abbrev pub total : Option (ℕ × ℕ) → Option ℕ
total none = none
total (some (p, c)) = some ((p + c) % 2 ^ 64)

-- A response from the exact-match cache says so.
abbrev pub is_hit : Response → Bool
is_hit r = elim (get (text "x-cache") r.headers) [ none ↦ false | some v ↦ text_eq v (text "HIT") ]

module _ (services : Services) (env : Env services.Store) where
  -- What an answer owes, in tokens, if it owes anything: a cached one nothing, a body its own
  -- usage, a stream the usage of the first event that has one among the bytes that are delivered.
  abbrev pub chat_bill : Response → Option ℕ
  chat_bill r = elim r.body [
    | full body ↦ if is_hit r then some 0 else total (usage_of services env body)
    | streamed outputs ↦ first_of (first_usage services (push [] (delivered outputs)).0)
  ]

  -- An error owes nothing, unless it is that of the builder, which comes after the usage of the body
  -- was charged.
  abbrev pub ChatOwes : Result Response AppError → Option ℕ → Type 0
  ChatOwes (ok r) bill = bill ≡ chat_bill r
  ChatOwes (err e) bill = (bill ≡ none) ⊎ (e ≡ header_failure services)

  pub stream_bill :
      (upstream : Arrivals) (seconds : ℕ)
      → let r = proxy_stream_passthrough services upstream seconds in
        first_of (usages r.callbacks)
        ≡ first_of (first_usage services (push [] (delivered r.outputs)).0)
  stream_bill upstream seconds =
      let idle = idle_timeout seconds in
      let r = proxy_stream_passthrough services upstream seconds in
      let same : delivered r.outputs ≡ concat (received idle upstream) =
        ap delivered (passthrough services upstream seconds).0
        ∙ delivered-append (received idle upstream) (ending idle upstream)
            (delivered-ending idle upstream) in
      ap first_of (usage_once services upstream seconds)
      ∙ ap (λ t. first_of (first_usage services (push [] t).0)) (sym same)

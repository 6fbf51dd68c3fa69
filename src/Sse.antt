-- ===== src/Sse.antt =====
-- src/proxy/sse_parser.rs: the incremental parser of server-sent events. The parser's state is its
-- byte buffer.
pub mod Framing
use rust_llm_gateway_semanti.Prelude.{
  ℕ, zero, suc, ◌+◌, Bool, true, false, ◌&&◌, not, Option, none, some, List, [], ◌∷◌, ◌++◌, Text,
  text, text_eq, strip_prefix, is_empty, length, take, drop, ◌==◌, if◌then◌else◌,
}
use mathlib.Core.Option
use rust_llm_gateway_semanti.Prelude.Utf8.{is_utf8}
use rust_llm_gateway_semanti.Services.{Services}

-- The position of the first blank line: `windows(2).position(|w| w == b"\n\n")`.
unfoldable pub find_event_end : Text → Option ℕ
find_event_end [] = none
find_event_end (a ∷ []) = none
find_event_end (a ∷ b ∷ s) =
    if a == b'\n' && b == b'\n' then some 0 else Option.map suc (find_event_end (b ∷ s))

-- `if let Ok(event_str) = String::from_utf8(..) { events.push(event_str) }`.
abbrev pub keep_utf8 : Text → List Text → List Text
keep_utf8 event events = if is_utf8 event then event ∷ events else events

-- The `while let` loop, with the rounds that it may take as fuel.
unfoldable pub drain : ℕ → Text → List Text × Text
drain zero buffer = ([], buffer)
drain (suc fuel) buffer = elim (find_event_end buffer) [
  | none ↦ ([], buffer)
  | some idx ↦
      let (events, rest) = drain fuel (drop (idx + 2) buffer) in
      (keep_utf8 (take (idx + 2) buffer) events, rest)
]

-- A round takes two bytes at least, so the length of the buffer is fuel enough.
unfoldable pub push : Text → Text → List Text × Text
push buffer chunk = let buffer' = buffer ++ chunk in drain (length buffer') buffer'

-- `str::lines`: a line ends with `\n` or `\r\n`; the last one needs no end.
abbrev strip_cr : Text → Text
strip_cr [] = []
strip_cr (c ∷ []) = if c == b'\r' then [] else c ∷ []
strip_cr (c ∷ d ∷ s) = c ∷ strip_cr (d ∷ s)

unfoldable pub lines_from : Text → Text → List Text
lines_from line [] = if is_empty line then [] else line ∷ []
lines_from line (c ∷ s) =
    let closed = strip_cr line ∷ lines_from [] s in
    let longer = lines_from (line ++ c ∷ []) s in if c == b'\n' then closed else longer

unfoldable pub lines : Text → List Text
lines s = lines_from [] s

module _ (services : Services) where
  open services use {Value, from_str, field, as_array, as_u64, as_str}

  -- The JSON of a `data: ` line that is not the end marker.
  unfoldable pub line_value : Text → Option Value
  line_value line = elim (strip_prefix (text "data: ") line) [
    | none ↦ none
    | some payload ↦ if text_eq payload (text "[DONE]") then none else from_str payload
  ]

  -- `choice.get("delta").and_then(..get("content")).and_then(Value::as_str)`, not empty.
  unfoldable pub choice_has_content : Value → Bool
  choice_has_content choice = elim (field choice (text "delta")) [
    | none ↦ false
    | some delta ↦ elim (field delta (text "content")) [
      | none ↦ false
      | some content ↦ elim (as_str content) [ none ↦ false | some s ↦ not (is_empty s) ]
    ]
  ]

  unfoldable pub any_content : List Value → Bool
  any_content [] = false
  any_content (choice ∷ choices) = if choice_has_content choice then true else any_content choices

  unfoldable pub value_has_content : Value → Bool
  value_has_content val = elim (field val (text "choices")) [
    | none ↦ false
    | some choices ↦ elim (as_array choices) [ none ↦ false | some cs ↦ any_content cs ]
  ]

  unfoldable pub content_in : List Text → Bool
  content_in [] = false
  content_in (line ∷ rest) = elim (line_value line) [
    | none ↦ content_in rest
    | some val ↦ if value_has_content val then true else content_in rest
  ]

  unfoldable pub is_content_event : Text → Bool
  is_content_event event = content_in (lines event)

  -- `usage.get(name).and_then(|v| v.as_u64()).unwrap_or(0)`.
  unfoldable pub token_count : Value → Text → ℕ
  token_count usage name = elim (field usage name) [
    | none ↦ 0
    | some v ↦ elim (as_u64 v) [ none ↦ 0 | some n ↦ n ]
  ]

  unfoldable pub usage_in : List Text → Option (ℕ × ℕ)
  usage_in [] = none
  usage_in (line ∷ rest) = elim (line_value line) [
    | none ↦ usage_in rest
    | some val ↦ elim (field val (text "usage")) [
      | none ↦ usage_in rest
      | some usage ↦
          some
            (token_count usage (text "prompt_tokens"), token_count usage (text "completion_tokens"))
    ]
  ]

  unfoldable pub extract_usage : Text → Option (ℕ × ℕ)
  extract_usage event = usage_in (lines event)

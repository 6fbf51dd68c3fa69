-- ===== src/Types.antt =====
-- src/types.rs: the OpenAI-compatible requests and responses. `Value` is that of serde_json; what
-- `Deserialize` and `Serialize` derive is third-party and not modelled here.
use rust_llm_gateway_semanti.Prelude.{ℕ, ◌^◌, Bool, Option, List, Text}
use rust_llm_gateway_semanti.Prelude.Floats.{Float, finite, pos, ℤ}
use rust_llm_gateway_semanti.Prelude.Maps.{Map}

pub record FunctionCall : Type 0 where
  pub name : Text
  pub arguments : Text

pub record ToolCall : Type 0 where
  pub id : Text
  pub type : Text
  pub function : FunctionCall

pub data StopTokens : Type 0 where
  single : Text → StopTokens
  multiple : List Text → StopTokens

pub record StreamOptions : Type 0 where
  pub include_usage : Bool

pub data EmbeddingInput : Type 0 where
  string : Text → EmbeddingInput
  string_array : List Text → EmbeddingInput
  token_array : List ℕ → EmbeddingInput  -- u32
  token_matrix : List (List ℕ) → EmbeddingInput

unfoldable pub default_temperature : Float
default_temperature = finite (pos (2 ^ 149))

unfoldable pub default_top_p : Float
default_top_p = finite (pos (2 ^ 149))

pub record Usage : Type 0 where
  pub prompt_tokens : ℕ  -- u64
  pub completion_tokens : ℕ  -- u64
  pub total_tokens : ℕ  -- u64

module _ (Value : Type 0) where
  pub data MessageContent : Type 0 where
    content_text : Text → MessageContent
    parts : List Value → MessageContent

  pub record Message : Type 0 where
    pub role : Text
    pub content : Option MessageContent
    pub name : Option Text
    pub tool_calls : Option (List ToolCall)
    pub tool_call_id : Option Text

  pub record FunctionDef : Type 0 where
    pub name : Text
    pub description : Option Text
    pub parameters : Option Value

  pub record Tool : Type 0 where
    pub type : Text
    pub function : FunctionDef

  pub record ResponseFormat : Type 0 where
    pub type : Text
    pub json_schema : Option Value

  pub record ChatCompletionRequest : Type 0 where
    pub model : Text
    pub messages : List Message
    pub stream : Bool
    pub stream_options : Option StreamOptions
    pub temperature : Float  -- f32
    pub top_p : Float  -- f32
    pub seed : Option ℤ
    pub tools : Option (List Tool)
    pub tool_choice : Option Value
    pub response_format : Option ResponseFormat
    pub max_tokens : Option ℕ  -- u32
    pub stop : Option StopTokens
    pub extra : Map Value

  pub record EmbeddingRequest : Type 0 where
    pub model : Text
    pub input : EmbeddingInput
    pub encoding_format : Option Text
    pub dimensions : Option ℕ  -- u32
    pub user : Option Text
    pub extra : Map Value

  pub record Choice : Type 0 where
    pub index : ℕ  -- u32
    pub message : Message
    pub finish_reason : Option Text

  pub record ChatCompletionResponse : Type 0 where
    pub id : Text
    pub object : Text
    pub created : ℕ  -- u64
    pub model : Text
    pub choices : List Choice
    pub usage : Option Usage
    pub system_fingerprint : Option Text

-- ===== src/Error.antt =====
-- src/error.rs: the error type of the handlers and the response that each error becomes.
pub mod Responses
use rust_llm_gateway_semanti.Prelude.{ℕ, Option, none, some, List, [], ◌∷◌, ◌++◌, Text, text}
use rust_llm_gateway_semanti.Prelude.Decimal.{to_decimal}
use rust_llm_gateway_semanti.Services.{Services}

pub data AppError : Type 0 where
  unauthorized : AppError
  rate_limited : ℕ → AppError
  upstream bad_request internal : Text → AppError

-- `ErrorBody`, which holds an `ErrorDetail` alone.
pub record ErrorDetail : Type 0 where
  pub code : Text
  pub message : Text
  pub retry_after : Option ℕ

-- `Display`.
unfoldable pub to_string : AppError → Text
to_string unauthorized = text "unauthorized"
to_string (rate_limited retry_after) =
    text "rate_limited (retry after " ++ to_decimal retry_after ++ text "s)"
to_string (upstream msg) = text "upstream: " ++ msg
to_string (bad_request msg) = text "bad request: " ++ msg
to_string (internal msg) = text "internal: " ++ msg

-- The tuple of status, code, message and wait that `into_response` computes first.
unfoldable pub describe : AppError → ℕ × ErrorDetail
describe unauthorized = (
  401,
  record {
    code = text "unauthorized";
    message = text "Invalid or missing API key";
    retry_after = none;
  },
)
describe (rate_limited wait) = (
  429,
  record {
    code = text "rate_limited";
    message = text "Rate limit exceeded";
    retry_after = some wait;
  },
)
describe (upstream _) = (
  502,
  record {
    code = text "upstream_error";
    message = text "Upstream provider error or timeout";
    retry_after = none;
  },
)
describe (bad_request msg) =
    (400, record { code = text "bad_request"; message = msg; retry_after = none })
describe (internal _) = (
  500,
  record {
    code = text "internal_error";
    message = text "Internal server error";
    retry_after = none;
  },
)

-- The headers that `into_response` adds to those of `Json`.
pub record ErrorResponse : Type 0 where
  pub status : ℕ
  pub headers : List (Text × Text)
  pub body : ErrorDetail

abbrev header_if : Option Text → List (Text × Text)
header_if none = []
header_if (some val) = (text "retry-after", val) ∷ []

module _ (services : Services) where
  open services use {header_value}

  unfoldable pub retry_header : AppError → List (Text × Text)
  retry_header (rate_limited retry_after) = header_if (header_value (to_decimal retry_after))
  retry_header _ = []

  unfoldable pub into_response : AppError → ErrorResponse
  unfolding describe retry_header
  into_response e =
      let (status, detail) = describe e in
      record { status = status; headers = retry_header e; body = detail }

-- `From`, with the text of the third-party error.
unfoldable pub from_serde_json : Text → AppError
from_serde_json e = bad_request (text "invalid JSON: " ++ e)

unfoldable pub from_reqwest : Text → AppError
from_reqwest e = upstream (text "reqwest: " ++ e)

unfoldable pub from_json_rejection : Text → AppError
from_json_rejection e = bad_request (text "invalid JSON body: " ++ e)

unfoldable pub from_bytes_rejection : Text → AppError
from_bytes_rejection e = bad_request (text "body extraction failed: " ++ e)

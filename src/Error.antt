-- ===== src/Error.antt =====
-- src/error.rs: the public errors, the internal `CoreError`, and how one becomes the other.
-- A formatted message is its template with the values that are put in.
use rl_rust_client.Common.{ℕ, List, [], ◌∷◌}
use Prim.Native.String.{String}

pub data ApiKeyError : Type 0 where
  invalid_encoding unsupported_version unsupported_credential invalid_limits : ApiKeyError

pub data ConfigurationError : Type 0 where
  invalid_duration : String → ConfigurationError
  missing_tracker_field : String → ConfigurationError
  invalid_name : String → ConfigurationError
  invalid_tracker_value : String → ConfigurationError
  invalid_token_quantity : ConfigurationError
  invalid_metrics_label : ConfigurationError
  resource_window_exceeds_api_key : ConfigurationError
  invalid_request_policy : ConfigurationError
  request_policy_exceeds_api_key : ConfigurationError
  invalid_service_domain : ConfigurationError
  too_many_request_entries : String → ConfigurationError
  unsupported : ConfigurationError

-- `std::io::ErrorKind`, as far as the client looks at it.
pub data ErrorKind : Type 0 where
  addr_in_use addr_not_available : ErrorKind
  other_kind : ℕ → ErrorKind

pub record IoError : Type 0 where
  pub kind : ErrorKind

-- `std::io::Result<usize>` of a send.
pub data IoResult : Type 0 where
  sent : ℕ → IoResult
  failed : IoError → IoResult

pub data Argument : Type 0 where
  number : ℕ → Argument
  bytes : List ℕ → Argument
  word : String → Argument

pub data Message : Type 0 where
  message : String → List Argument → Message

abbrev pub text : String → Message
text s = message s []

pub data CoreError : Type 0 where
  io : IoError → CoreError
  timeout : CoreError
  protocol : Message → CoreError
  auth : Message → CoreError
  dns : Message → CoreError
  config : Message → CoreError

pub data Error : Type 0 where
  invalid_api_key : ApiKeyError → Error
  invalid_configuration : ConfigurationError → Error
  discovery : Error
  communication : IoError → Error
  timed_out : Error
  protocol_error : Error
  authentication : Error

-- `impl From<CoreError> for Error`
unfoldable pub from_core_error : CoreError → Error
from_core_error (io source) = communication source
from_core_error timeout = timed_out
from_core_error (protocol _) = protocol_error
from_core_error (auth _) = authentication
from_core_error (dns _) = discovery
from_core_error (config _) = invalid_configuration unsupported

-- The messages of `ConfigurationError`.
unfoldable pub to_string : ConfigurationError → Message
to_string (invalid_duration field) =
    message "{} must be a positive whole number of milliseconds that fits in u32" (word field ∷ [])
to_string (missing_tracker_field field) = message "latency tracker is missing {}" (word field ∷ [])
to_string (invalid_name kind) = message "{} name is invalid" (word kind ∷ [])
to_string (invalid_tracker_value field) =
    message "latency tracker {} must be positive" (word field ∷ [])
to_string invalid_token_quantity = text "tokens requested must be between 1 and 65535"
to_string invalid_metrics_label = text "metrics label is too long"
to_string resource_window_exceeds_api_key = text "resource window exceeds the API key limit"
to_string invalid_request_policy = text "request policy schedule is invalid"
to_string request_policy_exceeds_api_key = text "request policy exceeds the API key limit"
to_string invalid_service_domain = text "service domain is invalid"
to_string (too_many_request_entries kind) = message "request contains too many {}" (word kind ∷ [])
to_string unsupported = text "configuration is not supported"

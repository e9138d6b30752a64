-- ===== src/ApiKey/Key.antt =====
-- `ApiKey` in src/api_key.rs: what `from_str` accepts of a decoded key. The value is shared and never
-- changed, so the `Arc` around it is left out.
pub mod RoundTrip
pub mod Valid
use rl_rust_client.Common.{
  ℕ, List, [], length, Bool, true, false, ◌&&◌, ◌==◌, if◌then◌else◌, Result, ok, err, panic, ok_or,
  map_err, ◌>>=◌,
}
use rl_rust_client.Common.Bytes.{to_array}
use rl_rust_client.Error.{
  ApiKeyError, invalid_encoding, unsupported_version, unsupported_credential, invalid_limits,
}
use rl_rust_client.Client.Auth.{AuthMethod, cookie, aes_gcm}
use rl_rust_client.ApiKey.Bech32.{
  Text, DecodeError, invalid_hrp_prefix, unsupported_auth_method, unsupported_format_version,
  invalid_packed_quota,
}
use rl_rust_client.ApiKey.Codec.{
  ApiKeyLimits, DecodedApiKey, same_text, none_name, cookie_name, aes_name, decode_api_key,
}

pub record ApiKey : Type 0 where
  pub key_id : ℕ
  pub auth_method : AuthMethod
  pub limits : ApiKeyLimits

unfoldable pub from_decode_error : DecodeError → ApiKeyError
from_decode_error (unsupported_format_version version) = unsupported_version
from_decode_error (unsupported_auth_method name) = unsupported_credential
from_decode_error invalid_hrp_prefix = unsupported_credential
from_decode_error invalid_packed_quota = invalid_limits
from_decode_error error = invalid_encoding

-- The `match` on the authentication method.
unfoldable pub auth_method_of : Text → List ℕ → Result ApiKeyError AuthMethod
auth_method_of name secret =
    if same_text name none_name && length secret == 0
    then ok AuthMethod.none
    else if same_text name cookie_name && length secret == 32
    then (do copied ← to_array 32 secret; ok (cookie copied))
    else if same_text name aes_name && length secret == 32
    then (do copied ← to_array 32 secret; ok (aes_gcm copied))
    else err unsupported_credential

unfoldable pub from_str : Text → Result ApiKeyError ApiKey
from_str encoded = do
  decoded ← map_err from_decode_error (decode_api_key encoded)
  limits ← ok_or (decoded.limits) unsupported_credential
  auth_method ← auth_method_of (decoded.auth_method) (decoded.auth_secret)
  ok record { key_id = decoded.key_id; auth_method = auth_method; limits = limits }

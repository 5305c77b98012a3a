-- ===== src/Transfer/Validate.antt =====
-- `validate`: the checks of a request before anything is started. An empty text is no error.
use ii_server_host.Prelude.Patterns.{matches_line, word_unit, split_at, has_unit}
use ii_server_host.Prelude.Checks.{◌otherwise◌, fail_if}
use ii_server_host.Prelude.{
  ltb, leb, ◌==◌, if◌then◌else◌, length, all, any, ℕ, Bool, true, false, ◌&&◌, ◌||◌, not, Option,
  none, some, List,
}
use ii_server_host.Prelude.Text.{Text, Bytes, text, eq, is_empty}
use ii_server_host.Protocol.{Address, Url, port_is_zero, loopback}
use ii_server_host.Transfer.Protocols.{
  Backend, TransferProtocol, wire_scheme, protocols, http_versions, find_protocol,
}
use ii_server_host.Prelude.Int.{ℤ, is_positive, is_negative}

pub data TransferOperation : Type 0 where
  download upload list other : TransferOperation

pub record TransferRequest : Type 0 where
  pub url : Url
  pub operation : TransferOperation
  pub local_path : Text
  pub username : Text
  pub password : Bytes
  pub bearer_token : Bytes
  pub ca_file : Text
  pub client_certificate : Text
  pub client_key : Text
  pub ssh_known_hosts : Text
  pub ssh_private_key : Text
  pub ssh_public_key : Text
  pub key_password : Bytes
  pub aws_sig_v4 : Text
  pub http_version : Text
  pub allow_cleartext : Bool
  pub maximum_bytes : ℤ
  pub expected_sha256 : Bytes
  pub connect_timeout_ms : ℤ
  pub timeout_ms : ℤ

-- What `QFileInfo` and `Address::parse` answer.
pub record Host : Type 0 where
  pub is_absolute : Text → Bool
  pub is_file : Text → Bool
  pub is_readable : Text → Bool
  pub parse_address : Text → Option Address

abbrev pub is_download : TransferOperation → Bool
is_download download = true
is_download _ = false

abbrev pub is_upload : TransferOperation → Bool
is_upload upload = true
is_upload _ = false

abbrev pub is_list : TransferOperation → Bool
is_list list = true
is_list _ = false

abbrev pub is_known : TransferOperation → Bool
is_known other = false
is_known _ = true

unfoldable pub is_hex : ℕ → Bool
is_hex u = (leb b'a' u && leb u b'f') || (leb b'A' u && leb u b'F') || (leb b'0' u && leb u b'9')

unfoldable pub sha_pattern : Bytes → Bool
unfolding is_hex
sha_pattern s = length s == 64 && all is_hex s

unfoldable pub aws_pattern : Text → Bool
unfolding split_at word_unit
aws_pattern s =
    length (split_at b':' s) == 4
    && all (λ p. not (is_empty p) && all word_unit p) (split_at b':' s)

abbrev pub uses_http : Text → Bool
uses_http scheme = eq (wire_scheme scheme) (text "http") || eq (wire_scheme scheme) (text "https")

abbrev pub uses_ssh : Text → Bool
uses_ssh scheme = eq scheme (text "sftp") || eq scheme (text "scp")

unfoldable pub listed_version : Text → List Text → Bool
listed_version v vs = any (λ w. eq w v) vs

module _ (backend : Backend) (host : Host) where
  unfoldable pub bad_url : Url → Bool
  bad_url url =
      not url.valid
      || url.relative
      || not (is_empty url.user_info)
      || url.has_fragment
      || port_is_zero url.port
      || ltb 16384 url.encoded_size

  unfoldable pub bad_http_version : TransferRequest → Bool
  bad_http_version r =
      (not (is_empty r.http_version)
        && (not (listed_version r.http_version (http_versions backend))
            || not (uses_http r.url.scheme)))
      || (eq r.http_version (text "3") && not (eq (wire_scheme r.url.scheme) (text "https")))

  unfoldable pub bad_operation : TransferRequest → TransferProtocol → Bool
  bad_operation r p = (is_upload r.operation && not p.upload) || (is_list r.operation && not p.list)

  -- The checks of the place: a local file, or a host that may be reached without encryption only if
  -- the caller allows it or it is a literal loopback.
  unfoldable pub place_error : TransferRequest → TransferProtocol → Text
  place_error r p =
      if eq r.url.scheme (text "file")
      then fail_if
          (not (is_empty r.url.host) || r.url.has_query || not (host.is_absolute r.url.local_file))
          "invalid_url"
      else (fail_if (is_empty r.url.host) "invalid_url"
          otherwise fail_if
              (not p.encrypted
                && not r.allow_cleartext
                && not (loopback host.parse_address r.url.host))
              "cleartext_disabled")

  unfoldable pub bad_limits : TransferRequest → Bool
  bad_limits r =
      not (is_positive r.timeout_ms)
      || not (is_positive r.connect_timeout_ms)
      || is_negative r.maximum_bytes

  unfoldable pub bad_credentials : TransferRequest → Bool
  bad_credentials r =
      has_unit 0 r.username
      || has_unit 0 r.password
      || has_unit 0 r.key_password
      || has_unit 0 r.bearer_token
      || has_unit 13 r.bearer_token
      || has_unit 10 r.bearer_token

  -- The checks from the checksum on.
  unfoldable pub late_error : TransferRequest → Text
  late_error r =
      fail_if (not (is_empty r.expected_sha256) && not (matches_line sha_pattern r.expected_sha256))
        "invalid_checksum"
      otherwise fail_if (bad_limits r) "invalid_limits"
      otherwise fail_if
          (uses_ssh r.url.scheme
            && (not (host.is_absolute r.ssh_known_hosts)
                || not (host.is_file r.ssh_known_hosts)
                || not (host.is_readable r.ssh_known_hosts)))
          "ssh_known_hosts_required"
      otherwise fail_if (not (host.is_absolute r.local_path) || has_unit 0 r.local_path)
          "invalid_local_path"
      otherwise fail_if (bad_credentials r) "invalid_credentials"
      otherwise fail_if
          ((not (is_empty r.bearer_token) || not (is_empty r.aws_sig_v4))
            && not (uses_http r.url.scheme))
          "unsupported_authentication"
      otherwise fail_if
          (not (is_empty r.aws_sig_v4)
            && (not (is_empty r.bearer_token) || not (matches_line aws_pattern r.aws_sig_v4)))
          "invalid_authentication"

  unfoldable pub protocol_error : TransferRequest → Option TransferProtocol → Text
  protocol_error r none = text "unsupported_protocol"
  protocol_error r (some p) =
      fail_if (bad_operation r p) "unsupported_operation"
      otherwise place_error r p
      otherwise late_error r

  unfoldable pub validate : TransferRequest → Text
  validate r =
      fail_if (not (is_known r.operation)) "unsupported_operation"
      otherwise fail_if (bad_url r.url) "invalid_url"
      otherwise fail_if (bad_http_version r) "unsupported_http_version"
      otherwise protocol_error r (find_protocol r.url.scheme (protocols backend))

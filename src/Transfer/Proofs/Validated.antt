-- ===== src/Transfer/Proofs/Validated.antt =====
-- What a request that passes `validate` fulfils.
use ii_server_host.Prelude.Patterns.{matches_line}
use ii_server_host.Prelude.{◌≡◌, true, false, ◌||◌, some}
use ii_server_host.Prelude.Text.{Text, text, eq, is_empty}
use ii_server_host.Protocol.{loopback}
use ii_server_host.Transfer.Protocols.{Backend, TransferProtocol, protocols, find_protocol}
use ii_server_host.Transfer.Validate.{
  TransferRequest, Host, sha_pattern, uses_http, uses_ssh, bad_url, bad_operation, bad_limits,
  bad_credentials,
}

module _ (backend : Backend) (host : Host) (r : TransferRequest) where
  pub record IsLate : Type 0 where
    pub checksum : (is_empty r.expected_sha256 || matches_line sha_pattern r.expected_sha256) ≡ true
    pub limits : bad_limits backend host r ≡ false
    pub known_hosts : uses_ssh r.url.scheme ≡ true → host.is_readable r.ssh_known_hosts ≡ true
    pub credentials : bad_credentials backend host r ≡ false
    pub bearer : is_empty r.bearer_token ≡ false → uses_http r.url.scheme ≡ true

-- Reached without encryption only on request or on this machine.
pub record IsAccepted (backend : Backend) (host : Host) (r : TransferRequest) : Type 0 where
  pub protocol : TransferProtocol
  pub found : find_protocol r.url.scheme (protocols backend) ≡ some protocol
  pub named : protocol.scheme ≡ r.url.scheme
  pub allowed : bad_operation backend host r protocol ≡ false
  pub private :
      (eq r.url.scheme (text "file")
        || (protocol.encrypted || (r.allow_cleartext || loopback host.parse_address r.url.host)))
      ≡ true
  pub url_fits : bad_url backend host r.url ≡ false
  pub late : IsLate backend host r

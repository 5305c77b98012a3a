-- ===== src/Storage/Server.antt =====
-- `serverSpec` and `validateServer`: what a file server is asked to be, and what refuses it.
use ii_server_host.Prelude.Patterns.{chop_line, split_at, has_unit}
use ii_server_host.Prelude.Checks.{◌otherwise◌, fail_if}
use ii_server_host.Prelude.{
  ltb, leb, ◌==◌, if◌then◌else◌, is_some, length, all, ℕ, ◌+◌, ◌-◌, ◌*◌, String, Bool, true, false,
  ◌&&◌, ◌||◌, not, Option, none, some, List, [], ◌∷◌,
}
use ii_server_host.Prelude.Text.{Text, Bytes, text, eq, is_empty}
use ii_server_host.Protocol.{Address}
use ii_server_host.Storage.Backend.{
  Files, BackendOptions, private_path, validate_backend, remote_location, validate_location, inside,
}

pub data FileServerProtocol : Type 0 where
  http https web_dav web_davs ftp ftps ftp_es sftp s3 s3_tls restic restic_tls nfs :
      FileServerProtocol
  other_protocol : FileServerProtocol

pub record FileServerOptions : Type 0 where
  pub protocol : FileServerProtocol
  pub root : Text
  pub address : Address
  pub port : ℕ
  pub username : Text
  pub password : Bytes
  pub certificate : Text
  pub private_key : Text
  pub authorized_keys : Text
  pub read_only : Bool
  pub allow_cleartext : Bool
  pub passive_ports : Text
  pub public_address : Text

pub record ServerSpec : Type 0 where
  pub command : Text
  pub tls : Bool
  pub auth : Bool
  pub experimental : Bool

abbrev spec_row : Text → Bool → Bool → Bool → ServerSpec
spec_row command tls auth experimental = record {
  command = command;
  tls = tls;
  auth = auth;
  experimental = experimental;
}

unfoldable pub server_spec : FileServerProtocol → ServerSpec
server_spec http = spec_row (text "http") false true false
server_spec https = spec_row (text "http") true true false
server_spec web_dav = spec_row (text "webdav") false true false
server_spec web_davs = spec_row (text "webdav") true true false
server_spec ftp = spec_row (text "ftp") false true false
server_spec ftps = spec_row (text "ftps") true true false
server_spec ftp_es = spec_row (text "ftpes") true true false
server_spec sftp = spec_row (text "sftp") false true false
server_spec s3 = spec_row (text "s3") false true true
server_spec s3_tls = spec_row (text "s3") true true true
server_spec restic = spec_row (text "restic") false true false
server_spec restic_tls = spec_row (text "restic") true true false
server_spec nfs = spec_row (text "nfs") false false false
server_spec other_protocol = spec_row [] false false false

abbrev pub runs : ServerSpec → String → Bool
runs spec command = eq spec.command (text command)

abbrev pub python_ftp : ServerSpec → Bool
python_ftp spec = runs spec "ftps" || runs spec "ftpes"

-- toInt() of decimal digits
unfoldable pub number_from : ℕ → Text → ℕ
number_from n [] = n
number_from n (u ∷ us) = number_from (n * 10 + (u - b'0')) us

abbrev is_digit : ℕ → Bool
is_digit u = leb b'0' u && leb u b'9'

unfoldable pub port_digits : Text → Bool
port_digits s = leb 1 (length s) && leb (length s) 5 && all is_digit s

abbrev port_pair : List Text → Option (ℕ × ℕ)
port_pair (low ∷ high ∷ []) =
    if port_digits low && port_digits high
    then some (number_from 0 low, number_from 0 high)
    else none
port_pair _ = none

abbrev or_else : Option (ℕ × ℕ) → Option (ℕ × ℕ) → Option (ℕ × ℕ)
or_else none second = second
or_else (some p) second = some p

-- The pattern ^([0-9]{1,5})-([0-9]{1,5})$ with its groups as numbers; `$` also matches before a line
-- feed at the end.
unfoldable pub port_range : Text → Option (ℕ × ℕ)
port_range s = or_else (port_pair (split_at b'-' s)) (port_pair (split_at b'-' (chop_line s)))

abbrev pub bad_range : Option (ℕ × ℕ) → Bool
bad_range none = true
bad_range (some (low, high)) = ltb low 1 || ltb 65535 high || ltb high low

unfoldable pub bad_passive_ports : Text → Bool
bad_passive_ports s = bad_range (port_range s)

abbrev pub has_name : Text → Bool
has_name s = not (is_empty s)

module _ (files : Files) (parse_address : Text → Option Address) (backend : BackendOptions) where
  unfoldable pub root_error : FileServerOptions → Text
  root_error o =
      if remote_location files o.root
      then []
      else if not (files.is_dir o.root)
          || files.is_sym_link o.root
          || not (eq (files.canonical o.root) (files.clean o.root))
      then text "invalid_root"
      else fail_if
          (inside files backend.runtime_directory (files.canonical o.root)
            || (has_name backend.config_file
                && inside files backend.config_file (files.canonical o.root))
            || (has_name o.private_key && inside files o.private_key (files.canonical o.root)))
          "secrets_inside_exported_root"

  unfoldable pub lacks_login : FileServerOptions → ServerSpec → Bool
  lacks_login o spec =
      spec.auth
      && (is_empty o.username
          || (is_empty o.password && not (runs spec "sftp" && has_name o.authorized_keys)))

  unfoldable pub bad_login : FileServerOptions → Bool
  bad_login o =
      has_unit b':' o.username
      || has_unit b',' o.username
      || has_unit b'"' o.username
      || has_unit 0 o.username
      || has_unit 0 o.password
      || has_unit 10 o.username
      || has_unit 13 o.username

  abbrev pub unusable_file : Text → Bool
  unusable_file path =
      not (files.is_absolute path) || not (files.is_file path) || not (files.is_readable path)

  unfoldable pub key_error : FileServerOptions → ServerSpec → Text
  key_error o spec =
      fail_if
        (spec.tls && (unusable_file o.certificate || not (private_path files o.private_key false)))
        "tls_identity_required"
      otherwise fail_if (runs spec "sftp" && not (private_path files o.private_key false))
          "ssh_host_key_required"
      otherwise fail_if
          (runs spec "sftp" && has_name o.authorized_keys && unusable_file o.authorized_keys)
          "invalid_authorized_keys"

  unfoldable pub ftp_error : FileServerOptions → ServerSpec → Text
  ftp_error o spec =
      if runs spec "ftp" || python_ftp spec
      then (fail_if (bad_passive_ports o.passive_ports) "invalid_passive_ports"
          otherwise fail_if
              (has_name o.public_address && not (is_some (parse_address o.public_address)))
              "invalid_public_address")
      else []

  unfoldable pub python_error : FileServerOptions → ServerSpec → Text
  python_error o spec =
      if python_ftp spec
      then (fail_if
            (not (files.is_absolute backend.ftp_python_executable)
              || not (files.is_file backend.ftp_python_executable)
              || not (files.is_executable backend.ftp_python_executable)
              || not (files.is_absolute backend.ftp_server_script)
              || not (files.is_file backend.ftp_server_script))
            "ftp_tls_backend_unavailable"
          otherwise fail_if (remote_location files o.root) "ftp_tls_requires_local_root"
          otherwise fail_if
              (inside files (files.absolute backend.ftp_server_script) (files.canonical o.root))
              "server_script_inside_exported_root")
      else []

  unfoldable pub listen_error : FileServerOptions → ServerSpec → Text
  listen_error o spec =
      fail_if (o.port == 0 || o.address.is_multicast) "invalid_listen_address"
      otherwise fail_if (is_empty spec.command) "unsupported_protocol"
      otherwise fail_if (lacks_login o spec) "authentication_required"
      otherwise fail_if (bad_login o) "invalid_credentials"
      otherwise fail_if
          (not spec.tls
            && not (runs spec "sftp")
            && not o.address.is_loopback
            && not o.allow_cleartext)
          "cleartext_disabled"

  unfoldable pub validate_server : FileServerOptions → Text
  validate_server o =
      let spec = server_spec o.protocol in
      validate_backend files backend (not (python_ftp spec))
      otherwise validate_location files o.root backend
      otherwise root_error o
      otherwise listen_error o spec
      otherwise key_error o spec
      otherwise fail_if (runs spec "restic" && o.read_only) "readonly_not_supported_by_restic"
      otherwise ftp_error o spec
      otherwise python_error o spec

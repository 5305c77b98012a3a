-- ===== src/Tests/Bridging.antt =====
-- A storage bridge with one listing, and a file server on the loopback.
use ii_server_host.Prelude.Patterns.{chop_line, matches_line, word_unit, split_at}
use ii_server_host.Prelude.Dict
use ii_server_host.Prelude.{◌≡◌, refl, true, false, Option, none, [], ◌∷◌, arith}
use ii_server_host.Prelude.Text.{
  Bytes, text, eq, starts_with, contains_unit, is_alnum, is_high, is_low, pairs_up, is_valid_utf16,
}
use ii_server_host.Json.{Json}
use ii_server_host.Protocol.{Address}
use ii_server_host.Prelude.Dict.{nat_eq, text_eq, Dict}
use ii_server_host.Prelude.Int.{pos}
use ii_server_host.Storage.Backend.{
  Files, BackendOptions, remote_pattern, private_path, executable_of, validate_backend,
  remote_location, names_remote, validate_location, inside,
}
use ii_server_host.Storage.Jobs.{list_directory, StorageRequest, Bridge, start_job, finish}
use ii_server_host.Storage.Server.{
  http, FileServerOptions, server_spec, number_from, port_digits, port_range, bad_passive_ports,
  root_error, lacks_login, bad_login, key_error, ftp_error, python_error, listen_error,
  validate_server,
}
use ii_server_host.Storage.Proofs.Guarded.{IsGuarded, validate_server_sound}
use ii_server_host.Storage.Proofs.Jobs.{IsTidy, starts, step-IsTidy, finish_once}

abbrev pub plain_files : Files
plain_files = record {
  is_absolute = λ t. starts_with t (b'/' ∷ []);
  is_sym_link = λ t. false;
  canonical = λ t. t;
  clean = λ t. t;
  absolute = λ t. t;
  is_dir = λ t. true;
  is_file = λ t. true;
  is_readable = λ t. true;
  is_executable = λ t. true;
  open_to_others = λ t. false;
  find_executable = λ t. text "/usr/bin/rclone";
  null_device = text "/dev/null";
  from_utf8 = λ b. b;
  system = (text "PATH", text "/bin") ∷ (text "RCLONE_DRIVE_TOKEN", text "secret") ∷ [];
}

abbrev pub plain_options : BackendOptions
plain_options = record {
  executable = [];
  config_file = [];
  config_password = [];
  runtime_directory = text "/run/x";
  ftp_python_executable = [];
  ftp_server_script = [];
}

abbrev plain_bridge : Bridge
plain_bridge = record {
  options = plain_options;
  objects = [];
  table = [];
  pending = [];
  finished = [];
  effects = [];
}

abbrev list_request : StorageRequest
list_request = record {
  operation = list_directory;
  source = text "/srv";
  destination = [];
  overwrite = false;
  timeout_ms = pos 1000;
}

abbrev no_document : Bytes → Option Json
no_document b = none

abbrev pub loopback_address : Address
loopback_address = record {
  is_loopback = true;
  is_multicast = false;
  is_unspecified = false;
  ipv4 = true;
  string = text "127.0.0.1";
  bytes = 127 ∷ 0 ∷ 0 ∷ 1 ∷ [];
}

abbrev pub plain_server : FileServerOptions
plain_server = record {
  protocol = http;
  root = text "/srv";
  address = loopback_address;
  port = 8080;
  username = text "u";
  password = text "p";
  certificate = [];
  private_key = [];
  authorized_keys = [];
  read_only = true;
  allow_cleartext = false;
  passive_ports = text "30000-32000";
  public_address = [];
}

validate_server_sound_example : IsGuarded plain_files (λ t. none) plain_options plain_server
unfolding bad_login bad_passive_ports chop_line contains_unit eq executable_of ftp_error inside
    is_alnum is_high is_low is_valid_utf16 key_error lacks_login listen_error matches_line
    names_remote number_from pairs_up port_digits port_range private_path python_error
    remote_location remote_pattern root_error server_spec split_at starts_with text validate_backend
    validate_location validate_server word_unit
validate_server_sound_example =
    validate_server_sound plain_files (λ t. none) plain_options plain_server refl

step-IsTidy_example : IsTidy (start_job plain_files (b'j' ∷ []) list_request plain_bridge)
unfolding Dict.find
step-IsTidy_example =
    step-IsTidy plain_files no_document (starts (b'j' ∷ []) list_request refl)
      (record { few = omega arith; bounded = λ i j h. cc; ended = λ i j h. cc })

finish_once_example :
    finish no_document (b'j' ∷ []) (pos 1) true (
      finish no_document
        (b'j' ∷ [])
        (pos 0)
        true
        (start_job plain_files (b'j' ∷ []) list_request plain_bridge))
    ≡ finish no_document
        (b'j' ∷ [])
        (pos 0)
        true
        (start_job plain_files (b'j' ∷ []) list_request plain_bridge)
finish_once_example =
    finish_once no_document (b'j' ∷ []) (pos 0) (pos 1) true true
      (start_job plain_files (b'j' ∷ []) list_request plain_bridge)

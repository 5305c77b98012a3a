-- ===== src/Tests/Moving.antt =====
-- A download with its checksum, and what the theorems say of it.
use ii_server_host.Prelude.{length, ◌≤◌, ◌≡◌, refl, true, false, none, [], ◌∷◌, arith}
use ii_server_host.Prelude.Text.{Bytes, text, eq, starts_with}
use ii_server_host.Protocol.{Url}
use ii_server_host.Prelude.Int.{pos}
use ii_server_host.Transfer.Protocols.{Backend, wire_scheme}
use ii_server_host.Transfer.Validate.{download, TransferRequest, Host}
use ii_server_host.Transfer.Callbacks.{
  overflows, over_limit, absorb, write_data, progress_data, writes, reports, call, calls,
}
use ii_server_host.Transfer.Perform.{
  curl_ok, timed_out, beside, Run, start_io, final_code, prepare, verdict, conclude, transfer,
  perform,
}
use ii_server_host.Transfer.Jobs.{start}
use ii_server_host.Transfer.Proofs.Bounded.{IsCounted, calls-IsCounted}
use ii_server_host.Transfer.Proofs.Outcome.{IsSound, failed_keeps_file, ok_transfer-IsSound}
use ii_server_host.Transfer.Proofs.Slots.{starts, step-bounded}

abbrev plain_backend : Backend
plain_backend = record {
  ready = true;
  wire_protocols = text "https" ∷ text "http" ∷ [];
  ssl = true;
  http2 = true;
  http3 = false;
}

abbrev plain_host : Host
plain_host = record {
  is_absolute = λ t. starts_with t (b'/' ∷ []);
  is_file = λ t. true;
  is_readable = λ t. true;
  parse_address = λ t. none;
}

abbrev file_url : Url
file_url = record {
  valid = true;
  scheme = text "https";
  host = text "example.org";
  port = none;
  user_info = [];
  has_query = false;
  has_fragment = false;
  string = text "https://example.org/f";
  relative = false;
  encoded_size = 21;
  local_file = [];
}

abbrev get_file : TransferRequest
get_file = record {
  url = file_url;
  operation = download;
  local_path = text "/tmp/f";
  username = [];
  password = [];
  bearer_token = [];
  ca_file = [];
  client_certificate = [];
  client_key = [];
  ssh_known_hosts = [];
  ssh_private_key = [];
  ssh_public_key = [];
  key_password = [];
  aws_sig_v4 = [];
  http_version = [];
  allow_cleartext = false;
  maximum_bytes = pos 100;
  expected_sha256 = [];
  connect_timeout_ms = pos 1000;
  timeout_ms = pos 1000;
}

abbrev good_run : Run
good_run = record {
  is_file = false;
  opens = true;
  opening = λ file. beside;
  input_size = 0;
  input_chunks = [];
  cancelled_early = false;
  rewinds = true;
  backend_ready = true;
  options_set = true;
  callbacks = writes (1 ∷ 2 ∷ []) 1 2 true ∷ reports 2 0 ∷ [];
  code = curl_ok;
  response = 200;
  negotiated = text "1.1";
  commits = true;
}

abbrev identity : Bytes → Bytes
identity b = b

failed_keeps_file_example :
    (perform identity get_file (record good_run { code = timed_out })).1 ≡ false
unfolding absorb call calls conclude final_code over_limit overflows perform prepare progress_data
    text transfer verdict write_data
failed_keeps_file_example =
    failed_keeps_file identity get_file (record good_run { code = timed_out }) refl

ok_transfer-IsSound_example :
    IsSound identity get_file good_run (calls good_run.callbacks (start_io get_file))
unfolding absorb call calls conclude eq final_code over_limit overflows perform prepare
    progress_data text transfer verdict wire_scheme write_data
ok_transfer-IsSound_example = ok_transfer-IsSound identity get_file good_run refl

calls-IsCounted_example : IsCounted (calls good_run.callbacks (start_io get_file))
calls-IsCounted_example =
    calls-IsCounted good_run.callbacks (start_io get_file) (refl, (tt, tt))
      (record { counted = refl; fits = omega arith; limited = λ u m. omega arith })

step-bounded_example :
    length
      (start plain_backend plain_host
        (b'j' ∷ [])
        get_file
        (record { jobs = []; pending = []; finished = [] })).jobs
    ≤ 4
step-bounded_example =
    step-bounded plain_backend plain_host {d = record { jobs = []; pending = []; finished = [] }}
      (starts (b'j' ∷ []) get_file) (omega arith)

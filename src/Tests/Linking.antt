-- ===== src/Tests/Linking.antt =====
-- A peer that is ready, with a ticket, a link that comes in, and a request that is pending.
use ii_server_host.Peer.Loss.{finish_on, lost, relay_error, relay_disconnected, relay_broken}
use ii_server_host.Prelude.Dict
use ii_server_host.Prelude.{◌+◌, ◌≤◌, ◌≡◌, refl, ◌⊎◌, true, false, none, some, [], ◌∷◌, arith}
use ii_server_host.Prelude.Text.{text, eq, lt}
use ii_server_host.Json.{
  str, obj, Object, end, is_undefined, is_string, to_str, to_object, value, remove, place, insert,
  object,
}
use ii_server_host.Protocol.{error, Address, Url, is_over}
use ii_server_host.Prelude.Dict.{nat_eq, text_eq, Dict}
use ii_server_host.Prelude.Int.{pos}
use ii_server_host.Peer.State.{
  Pending, Link, PeerOptions, Peer, emit, member, without, finish, put_request, finish_all,
  reset_local, schedule_reconnect,
}
use ii_server_host.Peer.Requests.{
  delivered, broken, take_remote, remote_each, once, settled, remote, take_local, local_each, local,
  is_entry, start_request, request,
}
use ii_server_host.Peer.Links.{Net, admit, greet, link_message, blank_link}
use ii_server_host.Peer.Events.{expire_requests, expire_tickets, expire_links, sweep, stop}
use ii_server_host.Peer.Turns.{relay_disconnects, begins, ticks, step, is_about, now_there, goes_on}
use ii_server_host.Peer.Proofs.Ledger.{completions, account_of}
use ii_server_host.Peer.Proofs.History.{request_lasts, request_settles}
use ii_server_host.Peer.Proofs.Tickets.{IsAdmitted, ticket_once}
use ii_server_host.Peer.Proofs.Endings.{stop_completes}

abbrev here : Address
here = record {
  is_loopback = true;
  is_multicast = false;
  is_unspecified = false;
  ipv4 = true;
  string = text "127.0.0.1";
  bytes = 127 ∷ 0 ∷ 0 ∷ 1 ∷ [];
}

abbrev relay_url : Url
relay_url = record {
  valid = true;
  scheme = text "wss";
  host = text "relay";
  port = none;
  user_info = [];
  has_query = false;
  has_fragment = false;
  string = text "wss://relay";
  relative = false;
  encoded_size = 11;
  local_file = [];
}

abbrev phone_options : PeerOptions
phone_options = record {
  relay_url = relay_url;
  credential = text "c";
  peer_id = text "phone";
  name = text "Phone";
  service = text "files";
  metadata = end;
  host_files = true;
  local_enabled = true;
  local_hosting_enabled = true;
  local_addresses = [];
  listen_address = here;
  has_identity = false;
  fingerprint = [];
  local_timeout_ms = 500;
  request_timeout_ms = 5000;
}

abbrev small_net : Net
small_net = record {
  parse_address = λ s. some here;
  parse_url = λ s. relay_url;
  write_url = λ scheme host port. host;
  interfaces = [];
  subnet_contains = λ own prefix address. false;
  read_ms = λ s. pos 0;
  from_utf8 = λ bs. bs;
  from_hex = λ bs. bs;
  to_hex = λ bs. bs;
}

abbrev pending_request : Pending
pending_request = record {
  peer = text "desk";
  payload = end;
  transport = [];
  socket = none;
  deadline = 5000;
}

abbrev phone : Peer
phone = record {
  options = phone_options;
  has_handler = true;
  server = none;
  requests = [];
  tickets = (text "t", record { peer = text "desk"; expires = some (pos 90) }) ∷ [];
  links = (4, blank_link 0) ∷ [];
  outbound = [];
  attempts = [];
  connecting = [];
  retry_active = false;
  auth_active = true;
  directory = [];
  account = text "account";
  error_text = [];
  running = true;
  ready = true;
  fatal = false;
  backoff = 1000;
  out = [];
}

-- The phone goes by the relay, and its directory has the desk.
abbrev remote_phone : Peer
remote_phone = record phone {
  options = record phone_options { local_enabled = false };
  directory = obj (object ((text "peerId", str (text "desk")) ∷ [])) ∷ [];
}

abbrev sending_phone : Peer
sending_phone =
    start_request (text "r") (λ id. delivered) 1
      (request (text "r") (text "desk") end 2 0 remote_phone)

-- The request is made and sent, the timer fires early, and the relay goes.
request_settles_example :
    ((Dict.contains (text "r") (relay_disconnected (sweep 5 sending_phone)).requests ≡ true)
      × (completions (text "r") (relay_disconnected (sweep 5 sending_phone)).out ≡ 0))
    ⊎ ((Dict.contains (text "r") (relay_disconnected (sweep 5 sending_phone)).requests ≡ false)
        × (completions (text "r") (relay_disconnected (sweep 5 sending_phone)).out ≡ 1))
unfolding Dict.find account_of completions is_about relay_disconnected step
request_settles_example =
    request_settles small_net (text "r") (text "desk") end 2 0 remote_phone
      (relay_disconnected (sweep 5 sending_phone)) refl (omega arith) (omega arith)
      (goes_on
        (goes_on (goes_on now_there 1 (begins (text "r") (λ id. delivered)) refl (λ j. refl)) 5
          ticks refl tt)
        6 relay_disconnects refl tt)

-- The same, with a send that breaks the relay's socket
abbrev broken_phone : Peer
broken_phone =
    start_request (text "r") (λ id. broken (text "full") false) 1
      (request (text "r") (text "desk") end 2 0 remote_phone)

request_lasts_example :
    (Dict.contains (text "r") (sweep 9000 broken_phone).requests ≡ true)
    ⊎ (1 ≤ completions (text "r") (sweep 9000 broken_phone).out)
unfolding Dict.find account_of completions is_about step
request_lasts_example =
    request_lasts small_net (text "r") (text "desk") end 2 0 remote_phone (sweep 9000 broken_phone)
      refl (omega arith) (omega arith)
      (goes_on (goes_on now_there 1 (begins (text "r") (λ id. broken (text "full") false)) refl tt)
        9000 ticks refl tt)

-- Of two requests to one peer the first breaks the relay's socket. Both are completed by its end,
-- and the second, which the loop brings back as an empty entry, once more by the timer.
abbrev broken_pair : Peer
broken_pair =
    start_request (text "r") (λ id. broken (text "full") false) 1
      (request (text "q") (text "desk") end 2 0
        (request (text "r") (text "desk") end 2 0 remote_phone))

completed_twice : completions (text "r") (sweep 9 broken_pair).out ≡ 2
unfolding Dict.find Dict.insert Dict.keys Dict.remove completions emit eq error expire_links
    expire_requests expire_tickets finish finish_all finish_on insert is_entry is_over is_string
    is_undefined local local_each lost lt object once place put_request relay_broken
    relay_disconnected relay_error remote remote_each remove request reset_local schedule_reconnect
    settled start_request sweep take_local take_remote text to_object to_str value without
completed_twice = refl

abbrev busy_phone : Peer
busy_phone = record phone { requests = (text "r", pending_request) ∷ [] }

stop_completes_example :
    (Dict.contains (text "r") (stop false busy_phone).requests ≡ false)
    × (completions (text "r") (stop false busy_phone).out
        ≡ completions (text "r") busy_phone.out + 1)
unfolding Dict.find eq text
stop_completes_example = stop_completes (text "r") false busy_phone refl

abbrev hello_message : Object
hello_message = object ((text "type", str (text "hello")) ∷ (text "ticket", str (text "t")) ∷ [])

abbrev entered_link : Link
entered_link = record (blank_link 0) {
  peer = text "desk";
  expires = some (pos 90);
  authenticated = true;
}

ticket_once_example :
    IsAdmitted hello_message 9 entered_link phone
      (link_message 4 hello_message none (λ id. delivered) 9 phone)
unfolding Dict.find Dict.insert admit blank_link emit eq greet insert is_over is_undefined
    link_message lt member object text value
ticket_once_example =
    ticket_once 4 hello_message none (λ id. delivered) 9 (blank_link 0) entered_link phone refl refl
      refl refl refl

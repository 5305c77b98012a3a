-- ===== src/Tests/Nearby.antt =====
-- A host on one address, a link to it, and a device that pairs with it.
use ii_server_host.Prelude.Patterns.{split_at, has_unit, decimal}
use ii_server_host.Lan.Offers.{
  new_session, accept, drop_unpaired, drop_all_unpaired, cancel_pairing, create_offer,
}
use ii_server_host.Prelude.Dict
use ii_server_host.Prelude.{
  if◌then◌else◌, length, take, drop, ℕ, ◌+◌, ◌-◌, ◌*◌, ◌≡◌, refl, ◌↔◌, true, false, Option, none,
  some, List, [], ◌∷◌, ◌++◌, map, arith,
}
use ii_server_host.Prelude.Text.{
  Text, text, eq, lt, starts_with, contains_unit, to_latin1, is_lower_hex, is_alnum,
}
use ii_server_host.Json.{
  str, Object, is_undefined, to_str, to_bool, to_object, value, place, insert, object,
}
use ii_server_host.Protocol.{error, identifier_unit, identifier, Address, is_over}
use ii_server_host.Prelude.Dict.{nat_eq, text_eq, Dict, keys}
use ii_server_host.Prelude.Int.{ℤ, pos, negsuc}
use ii_server_host.Lan.Link.{
  PairUrl, Links, LanLink, hex_token, xor_bits, or_bits, diff_loop, same_code, private_range,
  local_address, valid_link, encode_link, Digests, authentication_context,
}
use ii_server_host.Lan.State.{
  Session, Lan, fresh, emit, emit_all, drop_client, completions, complete_all, put_session,
  without_code, member, is_one, opens_files,
}
use ii_server_host.Lan.Host.{
  reject, is_refused_pair, is_taken, fails_proof, open_files, named_session, used_up, consume, pair,
  host_session, host_message,
}
use ii_server_host.Lan.Events.{stop, HostSetup, host_addresses, host_error, start_host, sweep}
use ii_server_host.Lan.Steps.{starts_host, offers, accepts, is_allowed, step, Reached, starts, goes}
use ii_server_host.Lan.Proofs.Codes.{same_code_exact}
use ii_server_host.Lan.Proofs.Reached.{Reached-IsSafe}
use ii_server_host.Lan.Proofs.Deadlines.{Ended, sweep-Ended}
use ii_server_host.Lan.Proofs.Sweeps.{IsSafe}
use ii_server_host.Lan.Proofs.Files.{IsServed, calls_sound}
use ii_server_host.Lan.Proofs.Links.{item}
use ii_server_host.Lan.Proofs.Outcomes.{IsCovered}
use ii_server_host.Lan.Proofs.Pairs.{pair_sound, offer_once}

abbrev desk : Text
desk = text "10.0.0.2"

abbrev token : Text
token = text "0123456789abcdef0123456789abcdef0123456789abcdef0123456789abcdef"

abbrev desk_link : LanLink
desk_link = record {
  addresses = desk ∷ [];
  port = 4433;
  host_id = text "desk";
  name = text "Desk";
  fingerprint = token;
  code = token;
  expires_at = some (pos 60000);
}

-- A small URL library: items are written as they are, and read by their separators.
abbrev write_items : List (Text × Text) → Text
write_items [] = []
write_items ((k, v) ∷ items) = b'&' ∷ (k ++ b'=' ∷ (v ++ write_items items))

abbrev read_item : List Text → Text × Text
read_item (k ∷ v ∷ parts) = (k, v)
read_item _ = ([], [])

abbrev read_items : Text → List (Text × Text)
read_items s = map (λ part. read_item (split_at b'=' part)) (drop 1 (split_at b'&' s))

abbrev society : Text
society = text "society://pair?"

abbrev read_link_text : Text → PairUrl
read_link_text s =
    let items = read_items s in
    record {
      url = record {
        valid = starts_with s society;
        scheme = take 7 s;
        host = take 4 (drop 10 s);
        port = none;
        user_info = [];
        has_query = true;
        has_fragment = has_unit b'#' s;
        string = s;
        relative = false;
        encoded_size = length s;
        local_file = [];
      };
      path = [];
      keys = keys items;
      version = item (text "v") items;
      value = λ k. item k items;
    }

abbrev read_digits : ℕ → Text → ℕ
read_digits n [] = n
read_digits n (u ∷ us) = read_digits (n * 10 + (u - b'0')) us

abbrev write_number : ℤ → Text
write_number (pos n) = decimal n
write_number (negsuc n) = b'-' ∷ decimal (n + 1)

abbrev desk_address : Address
desk_address = record {
  is_loopback = false;
  is_multicast = false;
  is_unspecified = false;
  ipv4 = true;
  string = desk;
  bytes = 10 ∷ 0 ∷ 0 ∷ 2 ∷ [];
}

abbrev desk_parse : Text → Option Address
desk_parse s = if eq s desk then some desk_address else none

abbrev desk_links : Links
desk_links = record {
  parse_address = desk_parse;
  read_url = read_link_text;
  write_url = λ items. society ++ write_items items;
  percent_encode = λ s. s;
  number = write_number;
  to_ushort = λ s. some (read_digits 0 s);
  to_long_long = λ s. some (pos (read_digits 0 s));
}

same_code_exact_example : (same_code token token ≡ true) ↔ (token ≡ token)
unfolding hex_token is_lower_hex text
same_code_exact_example = same_code_exact token token refl

abbrev plain_digests : Digests
plain_digests = record {
  array_json = λ ts. [];
  to_utf8 = λ t. t;
  hash = λ bs. bs;
  to_hex = λ bs. bs;
  from_hex = λ bs. bs;
  to_upper = λ bs. bs;
}

abbrev desk_setup : HostSetup
desk_setup = record {
  can_host = true;
  interfaces = [];
  has_identity = true;
  fingerprint = token;
  listener = some 4433;
  listener_error = [];
}

abbrev phone_message : Object
phone_message = object (
    (text "type", str (text "pair"))
    ∷ (text "host", str (text "desk"))
    ∷ (text "code", str token)
    ∷ (text "peerId", str (text "phone"))
    ∷ (text "name", str (text "Phone"))
    ∷ [])

-- The host is started, shows a code, and two sockets are connected.
abbrev hosting_desk : Lan
hosting_desk =
    step desk_links plain_digests 0
      (starts_host desk_setup (text "desk") (text "Desk") true (desk ∷ [])) fresh

abbrev showing_desk : Lan
showing_desk = step desk_links plain_digests 1 (offers 60 token) hosting_desk

abbrev called_desk : Lan
called_desk = step desk_links plain_digests 2 (accepts 7 desk) showing_desk

abbrev busy_desk : Lan
busy_desk = step desk_links plain_digests 3 (accepts 8 desk) called_desk

hosting-Reached : Reached desk_links plain_digests hosting_desk
unfolding is_allowed
hosting-Reached =
    goes starts 0 (starts_host desk_setup (text "desk") (text "Desk") true (desk ∷ [])) refl

showing-Reached : Reached desk_links plain_digests showing_desk
unfolding is_allowed
showing-Reached = goes hosting-Reached 1 (offers 60 token) refl

called-Reached : Reached desk_links plain_digests called_desk
unfolding Dict.find cancel_pairing complete_all create_offer drop_all_unpaired drop_client emit eq
    host_addresses host_error identifier is_allowed keys local_address private_range start_host step
    stop text
called-Reached = goes showing-Reached 2 (accepts 7 desk) refl

busy-Reached : Reached desk_links plain_digests busy_desk
unfolding Dict.find Dict.insert Dict.keys Dict.remove accept cancel_pairing complete_all completions
    create_offer drop_all_unpaired drop_client drop_unpaired emit emit_all encode_link eq fresh
    hex_token host_addresses host_error identifier identifier_unit is_allowed is_alnum is_lower_hex
    local_address new_session private_range put_session start_host step stop text valid_link
    without_code
busy-Reached = goes called-Reached 3 (accepts 8 desk) refl

Reached-IsSafe_example : IsSafe busy_desk
Reached-IsSafe_example = Reached-IsSafe desk_links plain_digests busy-Reached

abbrev phone_session : Session
phone_session = record {
  id = text "phone";
  name = text "Phone";
  paired = false;
  deadline = 15004;
  awaiting_approval = false;
  binary = false;
  iish_binary = false;
  authentication = [];
}

pair_sound_example : IsCovered plain_digests phone_message 4 phone_session busy_desk
unfolding Dict.find Dict.insert Dict.keys Dict.remove accept authentication_context cancel_pairing
    complete_all completions consume contains_unit create_offer diff_loop drop_all_unpaired
    drop_client drop_unpaired emit emit_all encode_link eq error fails_proof fresh hex_token
    host_addresses host_error host_message host_session identifier identifier_unit insert is_allowed
    is_alnum is_lower_hex is_one is_over is_refused_pair is_taken is_undefined local_address lt
    member named_session new_session object open_files opens_files or_bits pair place private_range
    put_session reject same_code start_host step stop text to_bool to_latin1 to_object to_str
    valid_link value without_code xor_bits
pair_sound_example =
    pair_sound plain_digests desk_links 7 phone_message 4 (new_session 2) phone_session none
      busy-Reached refl refl refl refl

offer_once_example :
    host_message plain_digests 8 phone_message 5 none
      (host_message plain_digests 7 phone_message 4 none busy_desk)
    ≡ reject 8 used_up (host_message plain_digests 7 phone_message 4 none busy_desk)
unfolding Dict.find Dict.insert Dict.keys Dict.remove accept authentication_context cancel_pairing
    complete_all completions consume contains_unit create_offer diff_loop drop_all_unpaired
    drop_client drop_unpaired emit emit_all encode_link eq error fails_proof fresh hex_token
    host_addresses host_error host_message host_session identifier identifier_unit insert is_allowed
    is_alnum is_lower_hex is_one is_over is_refused_pair is_taken is_undefined local_address lt
    member named_session new_session object open_files opens_files or_bits pair place private_range
    put_session reject same_code start_host step stop text to_bool to_latin1 to_object to_str
    valid_link value without_code xor_bits
offer_once_example =
    offer_once plain_digests desk_links 7 phone_message 4 (new_session 2) phone_session none 8
      phone_message 5 (new_session 3) none busy-Reached refl refl refl refl refl refl refl

calls_sound_example :
    IsServed phone_message 4
      (new_session 2)
      busy_desk
      (host_message plain_digests 7 phone_message 4 none busy_desk)
unfolding Dict.find Dict.insert Dict.remove accept cancel_pairing complete_all create_offer
    drop_all_unpaired drop_client emit eq host_addresses host_error identifier keys local_address
    private_range put_session start_host step stop text
calls_sound_example =
    calls_sound plain_digests 7 phone_message 4 (new_session 2) none busy_desk refl

abbrev waiting_phone : Lan
waiting_phone = record fresh { requests = (text "r", 20) ∷ [] }

sweep-Ended_example : Ended (text "r") (sweep plain_digests 25 9 waiting_phone)
unfolding Dict.find eq text
sweep-Ended_example = sweep-Ended plain_digests 25 9 (text "r") 20 waiting_phone refl (omega arith)

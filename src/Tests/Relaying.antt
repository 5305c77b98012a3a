-- ===== src/Tests/Relaying.antt =====
-- A relay with a host, a client and an offer, and what the theorems say of it.
use ii_server_host.Relay.Pairing.{
  pairing, pairing_error, may_claim, claim, pair_claim, pair_message,
}
use ii_server_host.Relay.Proofs.Claims.{claimed_hash, claim_pairs_own_account, claim_once}
use ii_server_host.Relay.Proofs.Known.{Known}
use ii_server_host.Prelude.{
  ◌+◌, ◌≤◌, ◌<◌, ◌≡◌, refl, ◌≢◌, inr, true, false, none, some, [], ◌∷◌, arith,
}
use ii_server_host.Prelude.Text.{Text, text, eq, lt, to_latin1, is_alnum}
use ii_server_host.Json.{
  bool, str, Object, end, is_undefined, to_str, value, place, insert, object, is_null_object,
}
use ii_server_host.Protocol.{identifier_unit, identifier, Url, Principal, live}
use ii_server_host.Relay.State.{
  Services, Socket, Session, Offer, Pair, Relay, new_session, session_of, exists_object, emit,
  set_session, active, is_peer_host, is_target_session, target_in, target, member,
}
use ii_server_host.Relay.Messages.{respond}
use ii_server_host.Relay.Events.{accept, authenticated, sweep, idle, step}
use ii_server_host.Relay.Proofs.Isolation.{IsHostFor, target_sound, target_complete}
use ii_server_host.Relay.Proofs.Answers.{SignedIn, authenticated-SignedIn, respond_once, rate_limit}
use ii_server_host.Relay.Proofs.Sweeping.{Swept, sweep-Swept}
use ii_server_host.Relay.Proofs.Removal.{remove-Known, not-has-remove}
use ii_server_host.Prelude.Dict.{nat_eq, text_eq, Dict}
use ii_server_host.Relay.Events
use ii_server_host.Prelude.Dict

abbrev blank_url : Url
blank_url = record {
  valid = false;
  scheme = [];
  host = [];
  port = none;
  user_info = [];
  has_query = false;
  has_fragment = false;
  string = [];
  relative = false;
  encoded_size = 0;
  local_file = [];
}

abbrev plain_services : Services
plain_services = record {
  hash = λ b. b;
  to_utf8 = λ t. t;
  number = λ n. n ∷ [];
  json_size = λ o. 2;
  parse_url = λ t. blank_url;
  parse_address = λ t. none;
  has_authenticator = true;
}

abbrev alice : Principal
alice = record { account_id = b'a' ∷ []; expires_at = 60000 }

abbrev host_session : Session
host_session = record {
  principal = alice;
  id = b'h' ∷ [];
  service = b'f' ∷ [];
  name = [];
  descriptor = object ((b'p' ∷ [], bool true) ∷ []);
  authenticating = false;
  connected = 0;
  pairing_window = none;
  pairing_attempts = 0;
}

abbrev client_session : Session
client_session = record host_session {
  id = b'c' ∷ [];
  descriptor = end;
  pairing_window = some 0;
  pairing_attempts = 6;
}

abbrev code : Text
code = text "0123456789abcdef0123456789abcdef0123456789abcdef0123456789abcdef"

abbrev room : Relay
room = record {
  tables = record {
    sessions = (1, host_session) ∷ (2, client_session) ∷ [];
    routes = (b'r' ∷ [], record { client = 2; host = 1; id = b'q' ∷ []; expires = 30000 }) ∷ [];
    offers = (code, record { host = 1; request = b'o' ∷ []; expires = 50000 }) ∷ [];
    pairs = [];
    objects = 1 ∷ 2 ∷ [];
  };
  out = [];
}

abbrev claim_message : Object
claim_message = object (
    (text "type", str (text "pair-claim"))
    ∷ (text "id", str (b'i' ∷ []))
    ∷ (text "code", str code)
    ∷ (text "host", str (b'h' ∷ []))
    ∷ [])

abbrev response_message : Object
response_message = object ((text "id", str (b'r' ∷ [])) ∷ (text "result", bool true) ∷ [])

abbrev claimed_pair : Pair
claimed_pair = record {
  host = 1;
  client = 2;
  host_request = b'o' ∷ [];
  client_request = b'i' ∷ [];
  expires = 15000;
}

target_sound_example : IsHostFor room 0 2 (b'h' ∷ []) 1
unfolding target target_in is_target_session is_peer_host session_of new_session live eq Dict.find
    Dict.keys is_null_object object insert is_undefined
target_sound_example = target_sound room 0 2 (b'h' ∷ []) 1 refl

target_complete_example : target room 0 2 (b'h' ∷ []) ≢ none
unfolding target target_in is_target_session is_peer_host session_of new_session live eq Dict.find
    Dict.keys is_null_object object insert is_undefined
target_complete_example =
    target_complete room 0 2 (b'h' ∷ []) 1 (target_sound room 0 2 (b'h' ∷ []) 1 refl)

respond_once_example :
    respond 2 response_message 20 (respond 1 response_message 10 room)
    ≡ respond 1 response_message 10 room
unfolding Dict.find member to_str value eq object insert place text is_undefined lt
respond_once_example =
    respond_once 1 response_message 10 room _ 2 response_message 20 refl refl refl

not-has-remove_example : Dict.find 1 (Events.remove 1 9 room).sessions ≡ none
not-has-remove_example = not-has-remove 1 9 room

sweep-Swept_example : Swept room (sweep 20000 room) 20000
sweep-Swept_example = sweep-Swept 20000 room

accepted-Known : Known (accept 1 5 idle).tables
unfolding accept idle Dict.find Dict.insert Dict.remove
accepted-Known = record {
  route_client = λ k r h. cc;
  route_host = λ k r h. cc;
  offer_host = λ k r h. cc;
  pair_host = λ k r h. cc;
  pair_client = λ k r h. cc;
  object = λ k h. ground (arith, h);
}

remove-Known_example : Known (Events.remove 1 9 (accept 1 5 idle)).tables
unfolding step
remove-Known_example = remove-Known 1 9 (accept 1 5 idle) accepted-Known

authenticated-SignedIn_example :
    ((session : Session) × (Dict.find 2 (authenticated 2 alice 10 room).sessions ≡ some session)
      × SignedIn client_session 10 alice session.principal)
    × ((t : Socket)
        → t ≢ 2
        → Dict.find t (authenticated 2 alice 10 room).sessions ≡ Dict.find t room.sessions)
unfolding Dict.find
authenticated-SignedIn_example = authenticated-SignedIn 2 alice 10 room client_session refl

rate_limit_example :
    pair_message plain_services 2 claim_message 10 (b'k' ∷ []) room
    ≡ pairing_error 2
        (member (text "id") claim_message)
        "pairing_rate_limited"
        (set_session 2 (record client_session { pairing_attempts = 7 }) room)
unfolding Dict.find Dict.insert Dict.remove Dict.keys member to_str value eq object insert place
    text is_undefined lt is_null_object identifier identifier_unit is_alnum
rate_limit_example =
    rate_limit plain_services 2 claim_message 10 (b'k' ∷ []) room client_session 0 refl refl
      (omega arith) (omega arith) refl (inr refl)

claim_pairs_own_account_example :
    (claimed_pair.client ≡ 2)
    × IsHostFor room 0 2 (member (text "host") claim_message) claimed_pair.host
    × (claimed_pair.expires ≤ 0 + 15000)
    × ((o : Offer) × (Dict.find (claimed_hash plain_services claim_message) room.offers ≡ some o)
        × (o.host ≡ claimed_pair.host)
        × (claimed_pair.expires ≤ o.expires)
        × (0 < o.expires))
unfolding pair_claim Dict.find Dict.insert Dict.remove Dict.keys member to_str value eq object
    insert place text is_undefined lt is_null_object to_latin1 may_claim exists_object active live
    session_of target target_in is_target_session is_peer_host claim pairing emit
claim_pairs_own_account_example =
    claim_pairs_own_account plain_services 2 (b'i' ∷ []) claim_message 0 (b'k' ∷ []) room
      claimed_pair refl refl

claim_once_example :
    pair_claim plain_services 3
      (b'j' ∷ [])
      claim_message
      1
      (b'l' ∷ [])
      (pair_claim plain_services 2 (b'i' ∷ []) claim_message 0 (b'k' ∷ []) room)
    ≡ pairing_error 3
        (b'j' ∷ [])
        "pairing_invalid_or_expired"
        (pair_claim plain_services 2 (b'i' ∷ []) claim_message 0 (b'k' ∷ []) room)
unfolding pair_claim Dict.find Dict.insert Dict.remove Dict.keys member to_str value eq object
    insert place text is_undefined lt is_null_object to_latin1 may_claim exists_object active live
    session_of target target_in is_target_session is_peer_host claim pairing emit
claim_once_example =
    claim_once plain_services 2 (b'i' ∷ []) claim_message 0 (b'k' ∷ []) room claimed_pair 3
      (b'j' ∷ []) claim_message 1 (b'l' ∷ []) refl refl refl

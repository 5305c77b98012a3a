-- ===== src/Relay/State.antt =====
-- The state of `RelayServer::Private`, the sockets' outbox, and the queries on it. A socket is a
-- number. A `QPointer` is null once its object is deleted, so `objects` lists those that exist.
use ii_server_host.Prelude.{
  ◌==◌, if◌then◌else◌, any, ℕ, Bool, false, ◌&&◌, not, Option, none, some, List, [], ◌∷◌, ◌++◌,
}
use ii_server_host.Prelude.Text.{Text, Bytes, eq}
use ii_server_host.Prelude.Dict.{nat_eq, text_eq, Dict}
use ii_server_host.Prelude.Dict
use ii_server_host.Json.{Object, end, to_str, value, is_null_object}
use ii_server_host.Protocol.{Address, Url, Principal, live}

-- What Qt, the network library and the build hand to the relay.
pub record Services : Type 0 where
  pub hash : Bytes → Bytes  -- SHA-256
  pub to_utf8 : Text → Bytes
  pub number : ℕ → Text  -- QString::number
  pub json_size : Object → ℕ  -- QJsonDocument(…).toJson().size()
  pub parse_url : Text → Url
  pub parse_address : Text → Option Address
  pub has_authenticator : Bool

abbrev pub Socket : Type 0
Socket = ℕ

pub record Session : Type 0 where
  pub principal : Principal
  pub id : Text
  pub service : Text
  pub name : Text
  pub descriptor : Object
  pub authenticating : Bool
  pub connected : ℕ
  pub pairing_window : Option ℕ
  pub pairing_attempts : ℕ

pub record Route : Type 0 where
  pub client : Socket
  pub host : Socket
  pub id : Text
  pub expires : ℕ

pub record Offer : Type 0 where
  pub host : Socket
  pub request : Text
  pub expires : ℕ

pub record Pair : Type 0 where
  pub host : Socket
  pub client : Socket
  pub host_request : Text
  pub client_request : Text
  pub expires : ℕ

pub record Tables : Type 0 where
  pub sessions : Dict Socket Session
  pub routes : Dict Text Route
  pub offers : Dict Bytes Offer
  pub pairs : Dict Text Pair
  pub objects : List Socket

-- What the relay does to a socket, in order. `asks` hands a credential to the authenticator.
pub data Effect : Type 0 where
  sends : Socket → Object → Effect
  closes : Socket → ℕ → Text → Effect
  pings : Socket → Effect
  asks : Socket → Bytes → Effect
  deletes_later : Socket → Effect

pub record Relay : Type 0 where
  pub tables : Tables
  pub open tables use *
  pub out : List Effect

abbrev pub nobody : Principal
nobody = record { account_id = []; expires_at = 0 }

unfoldable pub new_session : ℕ → Session
new_session now = record {
  principal = nobody;
  id = [];
  service = [];
  name = [];
  descriptor = end;
  authenticating = false;
  connected = now;
  pairing_window = none;
  pairing_attempts = 0;
}

abbrev pub or_new : ℕ → Option Session → Session
or_new now none = new_session now
or_new now (some session) = session

-- `sessions.value(s)`: a default session where there is none.
unfoldable pub session_of : Relay → ℕ → Socket → Session
unfolding new_session
session_of st now s = or_new now (Dict.find s st.sessions)

unfoldable pub exists_object : Relay → Socket → Bool
exists_object st s = any (λ o. o == s) st.objects

unfoldable pub emit : Effect → Relay → Relay
emit e st = record st { out = st.out ++ e ∷ [] }

abbrev pub send_to : Socket → Object → Relay → Relay
send_to s m st = emit (sends s m) st

abbrev pub close_plain : Socket → Relay → Relay
close_plain s st = emit (closes s 1000 []) st

abbrev pub set_session : Socket → Session → Relay → Relay
set_session s session st = record st {
  tables = record st.tables { sessions = Dict.insert s session st.sessions };
}

abbrev lives : Option Session → ℕ → Bool
lives none now = false
lives (some session) now = live session.principal now

-- Private::active
unfoldable pub active : Relay → ℕ → Socket → Bool
active st now s = lives (Dict.find s st.sessions) now

-- The test of `target` and of `directory` on one session.
unfoldable pub is_peer_host : Socket → Session → ℕ → Socket → Session → Bool
is_peer_host source caller now s session =
    not (s == source)
    && live session.principal now
    && not (is_null_object session.descriptor)
    && eq session.principal.account_id caller.principal.account_id
    && eq session.service caller.service

-- The whole test of `target`.
unfoldable pub is_target_session : Socket → Session → ℕ → Text → Socket → Option Session → Bool
is_target_session source caller now id s none = false
is_target_session source caller now id s (some session) =
    is_peer_host source caller now s session && eq session.id id

unfoldable pub target_in :
    Socket → Session → ℕ → Text → Dict Socket Session → List Socket → Option Socket
target_in source caller now id sessions [] = none
target_in source caller now id sessions (s ∷ rest) =
    if is_target_session source caller now id s (Dict.find s sessions)
    then some s
    else target_in source caller now id sessions rest

-- Private::target
unfoldable pub target : Relay → ℕ → Socket → Text → Option Socket
target st now source id =
    target_in source (session_of st now source) now id st.sessions (Dict.keys st.sessions)

unfoldable pub each {ℓ κ} : {A : Type ℓ} {S : Type κ} → (A → S → S) → List A → S → S
each body [] st = st
each body (a ∷ rest) st = each body rest (body a st)

unfoldable pub member : Text → Object → Text
unfolding to_str
member k m = to_str (value k m)

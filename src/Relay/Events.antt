-- ===== src/Relay/Events.antt =====
-- The events that are no messages: a connection, an authenticator's answer, a socket that goes, the
-- timer, and the end of a socket's object.
use ii_server_host.Prelude.{
  ltb, leb, ◌==◌, if◌then◌else◌, length, ℕ, ◌+◌, min, Bool, false, ◌&&◌, ◌||◌, not, Option, none,
  some, List, [], ◌∷◌,
}
use ii_server_host.Prelude.Text.{Text, Bytes, text, eq, is_empty}
use ii_server_host.Prelude.Dict.{nat_eq, text_eq, Dict}
use ii_server_host.Prelude.Dict
use ii_server_host.Json.{str, obj, Object, end, object}
use ii_server_host.Protocol.{error, Principal, live}
use ii_server_host.Relay.State.{
  Services, Socket, Session, Route, Offer, Pair, closes, pings, deletes_later, Relay, nobody,
  new_session, session_of, exists_object, emit, send_to, close_plain, set_session, active, each,
}
use ii_server_host.Relay.Pairing.{pairing_if, without_offer, finish_pair, cancel_pairing}
use ii_server_host.Relay.Messages.{changed, response, message}

-- RelayServer::listen, for one pending connection
unfoldable pub accept : Socket → ℕ → Relay → Relay
accept s now st =
    let born = record st { tables = record st.tables { objects = s ∷ st.objects } } in
    if leb 128 (length st.sessions)
    then emit (deletes_later s) (close_plain s born)
    else set_session s (new_session now) born

unfoldable pub is_refused : Principal → Session → ℕ → Bool
is_refused p session now =
    not (live p now)
    || (not (is_empty session.principal.account_id)
        && not (eq p.account_id session.principal.account_id))

unfoldable pub refuse : Socket → ℕ → Session → Relay → Relay
refuse s now session st =
    let cleared = cancel_pairing s [] now (set_session s session st) in
    close_plain s (
      send_to s
        (object
          ((text "type", str (text "error")) ∷ (text "error", str (text "unauthenticated")) ∷ []))
        (set_session s (record session { principal = nobody }) cleared))

-- Even a custom verifier's principal lasts a minute at most.
unfoldable pub admit : Socket → Principal → ℕ → Session → Relay → Relay
admit s p now session st =
    let expires = min p.expires_at (now + 60000) in
    send_to s
      (object
        ((text "type", str (text "authenticated")) ∷ (text "accountId", str p.account_id) ∷ []))
      (set_session s
        (record session { principal = record { account_id = p.account_id; expires_at = expires } })
        st)

abbrev answered : Socket → Principal → ℕ → Relay → Option Session → Relay
answered s p now st none = st
answered s p now st (some found) =
    let session = record found { authenticating = false } in
    if is_refused p found now then refuse s now session st else admit s p now session st

-- The completion that `message` hands to the authenticator.
unfoldable pub authenticated : Socket → Principal → ℕ → Relay → Relay
authenticated s p now st = answered s p now st (Dict.find s st.sessions)

abbrev drop_found : Socket → Text → Option Route → Relay → Relay
drop_found s key none st = st
drop_found s key (some r) st =
    let dropped = record st { tables = record st.tables { routes = Dict.remove key st.routes } } in
    if r.client == s || r.host == s
    then if exists_object st r.client && not (r.client == s)
      then send_to r.client (response r.id (obj (error (text "host_offline")))) dropped
      else dropped
    else st

unfoldable pub drop_route : Socket → Text → Relay → Relay
drop_route s key st = drop_found s key (Dict.find key st.routes) st

-- Private::remove, when the socket has disconnected
unfoldable pub remove : Socket → ℕ → Relay → Relay
remove s now st =
    let cleared = cancel_pairing s [] now st in
    let gone = record cleared {
      tables = record cleared.tables { sessions = Dict.remove s cleared.sessions };
    } in
    let dropped = each (drop_route s) (Dict.keys gone.routes) gone in
    changed now (emit (deletes_later s) dropped)

abbrev expire_found_offer : ℕ → Bytes → Option Offer → Relay → Relay
expire_found_offer now hash none st = st
expire_found_offer now hash (some o) st =
    if leb o.expires now || not (active st now o.host)
    then pairing_if o.host o.request (text "expired") end (without_offer hash st)
    else st

unfoldable pub expire_offer : ℕ → Bytes → Relay → Relay
expire_offer now hash st = expire_found_offer now hash (Dict.find hash st.offers) st

abbrev expire_found_pair : ℕ → Text → Option Pair → Relay → Relay
expire_found_pair now id none st = st
expire_found_pair now id (some p) st =
    if leb p.expires now || not (active st now p.host) || not (active st now p.client)
    then finish_pair id (text "expired") now st
    else st

unfoldable pub expire_pair : ℕ → Text → Relay → Relay
expire_pair now id st = expire_found_pair now id (Dict.find id st.pairs) st

-- A session is closed once its principal has lapsed, or seven seconds after it connected.
unfoldable pub is_stale : Session → ℕ → Bool
is_stale session now =
    (not (is_empty session.principal.account_id) && not (live session.principal now))
    || (is_empty session.principal.account_id && ltb (session.connected + 7000) now)

unfoldable pub check_session : ℕ → Socket → Relay → Relay
check_session now s st =
    if is_stale (session_of st now s) now
    then emit (closes s 1008 (text "Authentication expired")) st
    else emit (pings s) st

abbrev expire_found_route : ℕ → Text → Option Route → Relay → Relay
expire_found_route now id none st = st
expire_found_route now id (some r) st =
    let taken = record st { tables = record st.tables { routes = Dict.remove id st.routes } } in
    if ltb r.expires now
    then if exists_object st r.client
      then send_to r.client (response r.id (obj (error (text "timeout")))) taken
      else taken
    else st

unfoldable pub expire_route : ℕ → Text → Relay → Relay
expire_route now id st = expire_found_route now id (Dict.find id st.routes) st

-- Private::sweep
unfoldable pub sweep : ℕ → Relay → Relay
sweep now st =
    let a = each (expire_offer now) (Dict.keys st.offers) st in
    let b = each (expire_pair now) (Dict.keys a.pairs) a in
    let c = each (check_session now) (Dict.keys b.sessions) b in
    each (expire_route now) (Dict.keys c.routes) c

unfoldable pub without_object : Socket → List Socket → List Socket
without_object s [] = []
without_object s (o ∷ os) = let rest = without_object s os in if o == s then rest else o ∷ rest

-- The event loop deletes the object of a socket that `deleteLater` was called on.
unfoldable pub delete_object : Socket → Relay → Relay
delete_object s st = record st {
  tables = record st.tables { objects = without_object s st.objects };
}

unfoldable pub without_objects : List Socket → List Socket → List Socket
without_objects [] os = os
without_objects (s ∷ ss) os = without_objects ss (without_object s os)

-- RelayServer::stop deletes the sockets at once.
unfoldable pub stop : Relay → Relay
stop st = record st {
  tables = record {
    sessions = [];
    routes = [];
    offers = [];
    pairs = [];
    objects = without_objects (Dict.keys st.sessions) st.objects;
  };
}

unfoldable pub idle : Relay
idle = record {
  tables = record { sessions = []; routes = []; offers = []; pairs = []; objects = [] };
  out = [];
}

-- One turn of the relay's event loop.
pub data Event : Type 0 where
  accepts : Socket → Event
  receives : Socket → Object → Text → Event
  answers : Socket → Principal → Event
  disconnects : Socket → Event
  ticks : Event
  deletes : Socket → Event
  stops : Event

module _ (services : Services) where
  unfoldable pub step : ℕ → Event → Relay → Relay
  step now (accepts s) st = accept s now st
  step now (receives s m fresh) st = message services s m now fresh st
  step now (answers s p) st = authenticated s p now st
  step now (disconnects s) st = remove s now st
  step now ticks st = sweep now st
  step now (deletes s) st = delete_object s st
  step now stops st = stop st

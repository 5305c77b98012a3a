-- ===== src/Peer/State.antt =====
-- src/Peer.cpp: the state of `Peer::Private`, and what it does to its sockets and signals. A socket
-- is a number; an invalid `QDateTime` is `none`, and its timers are kept by whether they run.
use ii_server_host.Prelude.Dict
use ii_server_host.Prelude.{
  if◌then◌else◌, any, ℕ, ◌*◌, min, Bool, true, ◌&&◌, not, Option, none, some, List, [], ◌∷◌, ◌++◌,
}
use ii_server_host.Prelude.Text.{Text, Bytes, eq}
use ii_server_host.Json.{Json, Object, to_str, value}
use ii_server_host.Protocol.{Address, Url}
use ii_server_host.Prelude.Dict.{nat_eq, text_eq, Dict}
use ii_server_host.Prelude.Int.{ℤ}

abbrev pub Socket : Type 0
Socket = ℕ

pub record Pending : Type 0 where
  pub peer : Text
  pub payload : Object
  pub transport : Text
  pub socket : Option Socket
  pub deadline : ℕ

pub record Ticket : Type 0 where
  pub peer : Text
  pub expires : Option ℤ

pub record Link : Type 0 where
  pub peer : Text
  pub ticket : Text
  pub fingerprint : Text
  pub expires : Option ℤ
  pub deadline : ℕ
  pub outgoing : Bool
  pub authenticated : Bool

pub record Attempt : Type 0 where
  pub urls : List Text
  pub ticket : Text
  pub fingerprint : Text
  pub expires : Option ℤ

pub record PeerOptions : Type 0 where
  pub relay_url : Url
  pub credential : Bytes
  pub peer_id : Text
  pub name : Text
  pub service : Text
  pub metadata : Object
  pub host_files : Bool
  pub local_enabled : Bool
  pub local_hosting_enabled : Bool
  pub local_addresses : List Text
  pub listen_address : Address
  pub has_identity : Bool  -- hasIdentity(localTls)
  pub fingerprint : Text  -- certificateFingerprint(localTls)
  pub local_timeout_ms : ℕ
  pub request_timeout_ms : ℕ

-- What is done, in order. `calls` runs the request handler for a peer.
pub data Effect : Type 0 where
  relay_sends : Object → Effect
  relay_opens relay_aborts : Effect
  sends : Socket → Object → Effect
  closes : Socket → ℕ → Text → Effect
  aborts : Socket → Effect
  opens : Socket → Text → Effect
  calls : Text → Object → Effect
  completes : Text → Object → Text → Effect
  changes_state changes_peers : Effect
  pairing_event : Object → Effect
  retries_in : ℕ → Effect
  posts_start posts_next : Text → Effect  -- a zero timer
  posts_completion : Text → Object → Effect  -- a zero timer that signals it
  posts_pairing_event : Object → Effect

pub record Peer : Type 0 where
  pub options : PeerOptions
  pub has_handler : Bool
  pub server : Option ℕ  -- the port of the listening server
  pub requests : Dict Text Pending
  pub tickets : Dict Text Ticket
  pub links : Dict Socket Link
  pub outbound : Dict Text Socket
  pub attempts : Dict Text Attempt
  pub connecting : List Text
  pub retry_active : Bool
  pub auth_active : Bool
  pub directory : List Json
  pub account : Text
  pub error_text : Text
  pub running : Bool
  pub ready : Bool
  pub fatal : Bool
  pub backoff : ℕ
  pub out : List Effect

unfoldable pub emit : Effect → Peer → Peer
emit e st = record st { out = st.out ++ e ∷ [] }

unfoldable pub member : Text → Object → Text
unfolding to_str
member k m = to_str (value k m)

unfoldable pub without : Text → List Text → List Text
without k [] = []
without k (j ∷ js) = let rest = without k js in if eq j k then rest else j ∷ rest

abbrev pub listed_text : Text → List Text → Bool
listed_text k js = any (λ j. eq j k) js

abbrev finish_found : Text → Object → Peer → Option Pending → Peer
finish_found id result st none = st
finish_found id result st (some request) =
    emit (completes id result request.transport)
      (record st { requests = Dict.remove id st.requests })

-- Private::finish
unfoldable pub finish : Text → Object → Peer → Peer
finish id result st = finish_found id result st (Dict.find id st.requests)

-- A request goes on under another transport; it is on the table.
unfoldable pub put_request : Text → Pending → Peer → Peer
put_request id request st = record st { requests = Dict.insert id request st.requests }

unfoldable pub finish_all : Object → List Text → Peer → Peer
finish_all result [] st = st
finish_all result (id ∷ ids) st = finish_all result ids (finish id result st)

abbrev pub aborted : List Socket → List Effect
aborted [] = []
aborted (s ∷ ss) = aborts s ∷ aborted ss

-- Private::resetLocal
unfoldable pub reset_local : Peer → Peer
reset_local st = record st {
  links = [];
  outbound = [];
  attempts = [];
  connecting = [];
  tickets = [];
  out = st.out ++ aborted (Dict.keys st.links);
}

-- Private::scheduleReconnect
unfoldable pub schedule_reconnect : Peer → Peer
schedule_reconnect st =
    if st.running && not st.fatal && not st.retry_active
    then emit (retries_in st.backoff)
        (record st { retry_active = true; backoff = min (st.backoff * 2) 30000 })
    else st

-- ===== src/Peer/Requests.antt =====
-- src/Peer.cpp: the way of a request, over the relay or over a link. `sent` is what the transport
-- answers for each request.
use ii_server_host.Peer.Loss.{lost, relay_broken}
use ii_server_host.Prelude.Dict
use ii_server_host.Prelude.{
  ltb, leb, if◌then◌else◌, length, any, ℕ, ◌+◌, ◌-◌, Bool, true, false, ◌&&◌, ◌||◌, not, Option,
  none, some, List, [], ◌∷◌,
}
use ii_server_host.Prelude.Text.{Text, text, eq, is_empty}
use ii_server_host.Json.{
  Json, str, obj, Object, end, is_string, to_str, to_object, value, size, object,
}
use ii_server_host.Protocol.{wire_limit, error, is_over}
use ii_server_host.Prelude.Dict.{nat_eq, text_eq, Dict}
use ii_server_host.Peer.State.{
  Socket, Pending, Link, relay_sends, sends, posts_start, posts_completion, Peer, emit, member,
  without, listed_text, finish, put_request,
}

-- What a send answers. A socket that a send breaks signals its error and its end before the send
-- returns, with either answer: the transport may find its output too long after it has taken it.
pub data Sending : Type 0 where
  delivered refused : Sending
  broken : Text → Bool → Sending

-- What `requests[id]` makes of a key that is not there.
abbrev pub blank_pending : Pending
blank_pending = record { peer = []; payload = end; transport = []; socket = none; deadline = 0 }

-- `requests[id]`, with the table in which the key is there
abbrev pub indexed : Text → Peer → Option Pending → Peer × Pending
indexed id st none = (put_request id blank_pending st, blank_pending)
indexed id st (some r) = (st, r)

-- What a send of the relay leaves: the message, or the end that it brings about, and then the
-- end of the request
abbrev pub by_relay : Text → Object → Peer → Sending → Peer
by_relay id m st delivered = emit (relay_sends m) st
by_relay id m st refused = finish id (error (text "connection_lost")) st
by_relay id m st (broken message true) = relay_broken message (emit (relay_sends m) st)
by_relay id m st (broken message false) =
    finish id (error (text "connection_lost")) (relay_broken message st)

-- The body of the loop of `remote`
unfoldable pub take_remote : Text → Sending → Text → Peer × Pending → Peer
take_remote peer sending id (st, r) =
    if not (eq r.peer peer) || not (is_empty r.transport)
    then st
    else by_relay id
        (object (
          (text "type", str (text "request"))
          ∷ (text "id", str id)
          ∷ (text "peerId", str peer)
          ∷ (text "payload", obj r.payload)
          ∷ []))
        (put_request id (record r { transport = text "remote" }) st) sending

unfoldable pub remote_each : Text → (Text → Sending) → List Text → Peer → Peer
remote_each peer sent [] st = st
remote_each peer sent (id ∷ ids) st =
    remote_each peer sent ids
      (take_remote peer (sent id) id (indexed id st (Dict.find id st.requests)))

-- The keys of a QHash: each is listed once.
unfoldable pub once : List Text → List Text
once [] = []
once (id ∷ ids) = id ∷ without id (once ids)

-- Neither being connected nor tried any more
unfoldable pub settled : Text → Peer → Peer
settled peer st = record st {
  connecting = without peer st.connecting;
  attempts = Dict.remove peer st.attempts;
}

-- Private::remote
unfoldable pub remote : Text → (Text → Sending) → Peer → Peer
remote peer sent st = remote_each peer sent (once (Dict.keys st.requests)) (settled peer st)

abbrev pub by_socket : Socket → Text → Object → Peer → Sending → Peer
by_socket s id m st delivered = emit (sends s m) st
by_socket s id m st refused = finish id (error (text "connection_lost")) st
by_socket s id m st (broken message true) = lost s (emit (sends s m) st)
by_socket s id m st (broken message false) = finish id (error (text "connection_lost")) (lost s st)

-- The body of the loop of `local`
unfoldable pub take_local : Socket → Text → Sending → Text → Peer × Pending → Peer
take_local s peer sending id (st, r) =
    if not (eq r.peer peer) || not (is_empty r.transport)
    then st
    else by_socket s id
        (object (
          (text "type", str (text "request"))
          ∷ (text "id", str id)
          ∷ (text "payload", obj r.payload)
          ∷ []))
        (put_request id (record r { transport = text "local"; socket = some s }) st) sending

unfoldable pub local_each : Socket → Text → (Text → Sending) → List Text → Peer → Peer
local_each s peer sent [] st = st
local_each s peer sent (id ∷ ids) st =
    local_each s peer sent ids
      (take_local s peer (sent id) id (indexed id st (Dict.find id st.requests)))

abbrev local_found : Socket → (Text → Sending) → Peer → Option Link → Peer
local_found s sent st none = st
local_found s sent st (some l) =
    if l.authenticated
    then local_each s l.peer sent (once (Dict.keys st.requests)) (settled l.peer st)
    else st

-- Private::local
unfoldable pub local : Socket → (Text → Sending) → Peer → Peer
local s sent st = local_found s sent st (Dict.find s st.links)

unfoldable pub names_peer : Text → Json → Bool
names_peer peer entry = eq (member (text "peerId") (to_object entry)) peer

-- The comparison of a value with a text, which no other value equals
unfoldable pub is_entry : Text → Json → Bool
is_entry peer entry =
    let v = value (text "peerId") (to_object entry) in is_string v && eq (to_str v) peer

abbrev usable : ℕ → Option Link → Bool
usable now none = false
usable now (some l) = l.authenticated && not (is_over l.expires now)

-- The link out to a peer, if it is there and can be used
abbrev pub open_link : ℕ → Peer → Option Socket → Option Socket
open_link now st none = none
open_link now st (some s) = if usable now (Dict.find s st.links) then some s else none

abbrev pub connect : Text → Peer → Peer
connect peer st =
    emit
      (relay_sends (object ((text "type", str (text "connect")) ∷ (text "peerId", str peer) ∷ [])))
      (record st { connecting = peer ∷ st.connecting })

abbrev by_link : Text → (Text → Sending) → Peer → Option Socket → Peer
by_link peer sent st (some s) = local s sent st
by_link peer sent st none =
    if not st.options.local_enabled
    then remote peer sent st
    else if listed_text peer st.connecting
    then st
    else connect peer st

abbrev start_found : Text → (Text → Sending) → ℕ → Peer → Option Pending → Peer
start_found id sent now st none = st
start_found id sent now st (some r) =
    if not st.ready
    then finish id (error (text "not_connected")) st
    else if not (any (is_entry r.peer) st.directory)
    then finish id (error (text "host_unavailable")) st
    else by_link r.peer sent st (open_link now st (Dict.find r.peer st.outbound))

-- Private::startRequest
unfoldable pub start_request : Text → (Text → Sending) → ℕ → Peer → Peer
start_request id sent now st = start_found id sent now st (Dict.find id st.requests)

-- Peer::request, with the new identity and the size of the payload's JSON text
unfoldable pub request : Text → Text → Object → ℕ → ℕ → Peer → Peer
request id peer payload size now st =
    if leb 32 (length st.requests) || ltb (wire_limit - 1024) size
    then emit (posts_completion id (error (text "request_too_large_or_busy"))) st
    else emit (posts_start id) (
        put_request id
          (record {
            peer = peer;
            payload = payload;
            transport = [];
            socket = none;
            deadline = now + st.options.request_timeout_ms;
          })
          st)

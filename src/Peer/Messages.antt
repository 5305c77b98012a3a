-- ===== src/Peer/Messages.antt =====
-- src/Peer.cpp: the messages of the relay.
use ii_server_host.Peer.Loss.{lost}
use ii_server_host.Prelude.Dict
use ii_server_host.Prelude.{
  leb, if◌then◌else◌, length, any, ℕ, Bool, true, false, ◌&&◌, not, Option, none, some, List, [],
  ◌∷◌, map,
}
use ii_server_host.Prelude.Text.{Text, text, eq, is_empty}
use ii_server_host.Json.{
  Json, bool, str, obj, Object, to_str, to_object, to_array, array, value, object,
}
use ii_server_host.Protocol.{Url, endpoint}
use ii_server_host.Prelude.Dict.{nat_eq, text_eq, Dict}
use ii_server_host.Peer.State.{
  Socket, Pending, Link, Attempt, PeerOptions, relay_sends, changes_state, changes_peers,
  pairing_event, Peer, emit, member, listed_text, finish,
}
use ii_server_host.Peer.Requests.{Sending, names_peer}
use ii_server_host.Peer.Links.{Interface, Net, on_link, next_local, handle, ran}

abbrev addresses_of : List Interface → List Text
addresses_of [] = []
addresses_of (entry ∷ entries) =
    let rest = addresses_of entries in
    if not entry.is_loopback && entry.ipv4 then entry.address ∷ rest else rest

abbrev listen_addresses : Net → PeerOptions → List Text
listen_addresses net o =
    if not (is_empty o.local_addresses)
    then o.local_addresses
    else if o.listen_address.is_loopback
    then o.listen_address.string ∷ []
    else addresses_of net.interfaces

abbrev urls_on : Net → PeerOptions → Option ℕ → List Json
urls_on net o none = []
urls_on net o (some port) =
    map
      (λ address.
        str (net.write_url (if o.has_identity then text "wss" else text "ws") address port))
      (listen_addresses net o)

-- Private::localUrls
unfoldable pub local_urls : Net → Peer → List Json
local_urls net st = urls_on net st.options st.server

-- Private::authenticate
unfoldable pub authenticate : Net → Peer → Peer
authenticate net st =
    emit
      (relay_sends (
        object (
          (text "type", str (text "auth"))
          ∷ (text "credential", str (net.from_utf8 st.options.credential))
          ∷ [])))
      st

unfoldable pub register : Net → Object → Peer → Peer
register net m st =
    emit
      (relay_sends (
        object (
          (text "type", str (text "register"))
          ∷ (text "peerId", str st.options.peer_id)
          ∷ (text "name", str st.options.name)
          ∷ (text "service", str st.options.service)
          ∷ (text "host", bool st.options.host_files)
          ∷ (text "metadata", obj st.options.metadata)
          ∷ (text "localUrls", array (local_urls net st))
          ∷ (text "fingerprint", str st.options.fingerprint)
          ∷ [])))
      (record st { account = member (text "accountId") m })

abbrev pub is_stale_link : List Json → Option Link → Bool
is_stale_link directory none = false
is_stale_link directory (some l) = not (any (names_peer l.peer) directory) && l.outgoing

-- The links out to peers that the directory no longer has
unfoldable pub lose_absent : List Json → List Socket → Peer → Peer
lose_absent directory [] st = st
lose_absent directory (s ∷ ss) st =
    lose_absent directory ss
      (if is_stale_link directory (Dict.find s st.links) then lost s st else st)

-- The `peers` message
unfoldable pub set_directory : Object → Peer → Peer
set_directory m st =
    let directory = to_array (value (text "peers") m) in
    emit changes_peers
      (lose_absent directory (Dict.keys st.links) (record st { directory = directory }))

-- The `ticket` message
unfoldable pub add_ticket : Net → Object → Peer → Peer
add_ticket net m st = if leb 128 (length st.tickets) then st else record st {
  tickets =
      Dict.insert (member (text "ticket") m)
        (record {
          peer = member (text "peerId") m;
          expires = some (net.read_ms (member (text "expires") m));
        })
        st.tickets;
}

-- The URLs of a descriptor that a link is tried on
unfoldable pub near_urls : Net → Url → List Json → List Text
near_urls net relay_url [] = []
near_urls net relay_url (v ∷ vs) =
    let url = net.parse_url (to_str v) in
    let rest = near_urls net relay_url vs in
    if endpoint net.parse_address url (text "wss") (text "ws") && on_link net relay_url url
    then url.string ∷ rest
    else rest

-- The `connect` message
unfoldable pub connect_peer : Net → Object → Socket → (Text → Sending) → ℕ → Peer → Peer
connect_peer net m s sent now st =
    let peer = member (text "peerId") m in
    let info = to_object (value (text "descriptor") m) in
    let attempt : Attempt = record {
      urls = near_urls net st.options.relay_url (to_array (value (text "localUrls") info));
      ticket = member (text "ticket") m;
      fingerprint = member (text "fingerprint") info;
      expires = some (net.read_ms (member (text "expires") m));
    } in
    if not (listed_text peer st.connecting)
    then st
    else next_local net peer s sent now
        (record st { attempts = Dict.insert peer attempt st.attempts })

-- The `request` message: the relay hands a request of another peer over.
unfoldable pub relayed : Object → Option Object → Peer → Peer
relayed m answer st =
    emit
      (relay_sends (
        object (
          (text "type", str (text "response"))
          ∷ (text "id", value (text "id") m)
          ∷ (text "result", obj (handle answer st))
          ∷ [])))
      (ran (member (text "peerId") m) (to_object (value (text "payload") m)) st)

abbrev pub is_remote : Option Pending → Bool
is_remote none = false
is_remote (some r) = eq r.transport (text "remote")

-- Private::message behind `ready`
unfoldable pub ready_message :
    Net → Object → Option Object → Socket → (Text → Sending) → ℕ → Peer → Peer
ready_message net m answer s sent now st =
    let type = member (text "type") m in
    let id = member (text "id") m in
    if eq type (text "pairing")
    then emit (pairing_event m) st
    else if eq type (text "peers")
    then set_directory m st
    else if eq type (text "ticket")
    then add_ticket net m st
    else if eq type (text "connect")
    then connect_peer net m s sent now st
    else if eq type (text "request")
    then relayed m answer st
    else if eq type (text "response") && is_remote (Dict.find id st.requests)
    then finish id (to_object (value (text "result") m)) st
    else st

-- Private::message
unfoldable pub message : Net → Object → Option Object → Socket → (Text → Sending) → ℕ → Peer → Peer
message net m answer s sent now st =
    let type = member (text "type") m in
    if eq type (text "authenticated")
    then register net m st
    else if eq type (text "registered")
    then emit changes_state (record st { ready = true; backoff = 1000; error_text = [] })
    else if eq type (text "error")
    then emit changes_state (record st { error_text = member (text "error") m; fatal = true })
    else if not st.ready
    then st
    else ready_message net m answer s sent now st

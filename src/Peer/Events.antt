-- ===== src/Peer/Events.antt =====
-- src/Peer.cpp: the timer, the relay's socket, the start and the end, and the calls of the owner.
use ii_server_host.Peer.Loss.{lost, relay_disconnected, relay_broken}
use ii_server_host.Prelude.Dict
use ii_server_host.Prelude.{
  ltb, leb, if◌then◌else◌, is_some, length, ℕ, Bool, true, false, ◌&&◌, ◌||◌, not, Option, none,
  some, List, [], ◌∷◌,
}
use ii_server_host.Prelude.Text.{Text, text, is_empty}
use ii_server_host.Json.{str, Object, object}
use ii_server_host.Protocol.{error, identifier, endpoint, listener_error, is_over}
use ii_server_host.Prelude.Dict.{nat_eq, text_eq, Dict}
use ii_server_host.Peer.State.{
  Socket, Pending, Ticket, Link, PeerOptions, relay_sends, relay_opens, relay_aborts, completes,
  changes_state, changes_peers, posts_pairing_event, Peer, emit, finish, finish_all, reset_local,
}
use ii_server_host.Peer.Links.{Net}
use ii_server_host.Peer.Messages.{authenticate, message}

abbrev pub is_late : ℕ → Option Pending → Bool
is_late now none = false
is_late now (some r) = leb r.deadline now

unfoldable pub expire_requests : ℕ → List Text → Peer → Peer
expire_requests now [] st = st
expire_requests now (id ∷ ids) st =
    expire_requests now ids
      (if is_late now (Dict.find id st.requests) then finish id (error (text "timeout")) st else st)

abbrev ticket_over : ℕ → Option Ticket → Bool
ticket_over now none = false
ticket_over now (some t) = is_over t.expires now

unfoldable pub expire_tickets : ℕ → List Text → Dict Text Ticket → Dict Text Ticket
expire_tickets now [] tickets = tickets
expire_tickets now (k ∷ ks) tickets =
    expire_tickets now ks
      (if ticket_over now (Dict.find k tickets) then Dict.remove k tickets else tickets)

abbrev pub link_over : ℕ → Option Link → Bool
link_over now none = false
link_over now (some l) =
    (l.authenticated && is_over l.expires now) || (not l.authenticated && leb l.deadline now)

unfoldable pub expire_links : ℕ → List Socket → Peer → Peer
expire_links now [] st = st
expire_links now (s ∷ ss) st =
    expire_links now ss (if link_over now (Dict.find s st.links) then lost s st else st)

-- Private::sweep
unfoldable pub sweep : ℕ → Peer → Peer
sweep now st =
    let a = expire_requests now (Dict.keys st.requests) st in
    let b = record a { tickets = expire_tickets now (Dict.keys a.tickets) a.tickets } in
    expire_links now (Dict.keys b.links) b

-- Private::openRelay, when the timer of a new try fires
unfoldable pub open_relay : Peer → Peer
open_relay st =
    let fired = record st { retry_active = false } in
    if st.running then emit relay_opens fired else fired

-- The relay's socket is connected. `breaks` is the error of a send that breaks the socket, which
-- then signals its end before the timer is started.
unfoldable pub relay_connected : Net → Option Text → Peer → Peer
relay_connected net none st = record (authenticate net st) { auth_active = true }
relay_connected net (some message) st = record (relay_broken message (authenticate net st)) {
  auth_active = true;
}

-- Peer::stop. The abort signals `disconnected` if the relay's socket was open.
unfoldable pub stop : Bool → Peer → Peer
stop relay_open st =
    let halted = record st {
      running = false;
      retry_active = false;
      auth_active = false;
      server = none;
    } in
    let cut = emit relay_aborts (record (reset_local halted) { ready = false }) in
    let closed = if relay_open then relay_disconnected cut else cut in
    let ended = finish_all (error (text "stopped")) (Dict.keys closed.requests) closed in
    emit changes_peers (
      emit changes_state (record ended {
        directory = [];
        account = [];
        options = record ended.options { credential = [] };
        has_handler = false;
      }))

-- The limits that start sets on its options
unfoldable pub is_invalid : Net → PeerOptions → Bool
is_invalid net o =
    not (endpoint net.parse_address o.relay_url (text "wss") (text "ws"))
    || is_empty o.credential
    || ltb 16384 (length o.credential)
    || not (identifier o.peer_id)
    || not (identifier o.service)
    || ltb 128 (length o.name)
    || ltb o.local_timeout_ms 50
    || ltb 10000 o.local_timeout_ms
    || ltb o.request_timeout_ms 100
    || ltb 120000 o.request_timeout_ms

unfoldable pub hosts_links : PeerOptions → Bool
hosts_links o = o.local_enabled && o.local_hosting_enabled && o.host_files

-- Peer::start, with the port of the listener (or none, and its error)
unfoldable pub start : Net → PeerOptions → Bool → Option ℕ → Text → Bool → Peer → Bool × Peer
start net o has_handler port listener_error relay_open st =
    let stopped = record (stop relay_open st) { error_text = [] } in
    let taken = record stopped {
      options = o;
      has_handler = has_handler;
      fatal = false;
      backoff = 1000;
    } in
    if is_invalid net o
    then (
      false,
      emit changes_state (record stopped {
        error_text = text "Invalid peer identity, credential, URL or timeout.";
      }),
    )
    else if hosts_links o && not (is_some port)
    then (false, emit changes_state (record taken { error_text = listener_error }))
    else (
      true,
      emit relay_opens
          (record taken { running = true; server = if hosts_links o then port else none }),
    )

-- A posted completion is signalled.
unfoldable pub deliver_completion : Text → Object → Peer → Peer
deliver_completion id result st = emit (completes id result []) st

-- Peer::refreshPeers
unfoldable pub refresh_peers : Peer → Peer
refresh_peers st =
    if st.ready then emit (relay_sends (object ((text "type", str (text "list")) ∷ []))) st else st

abbrev not_connected : Text → Object
not_connected id = object (
    (text "id", str id)
    ∷ (text "status", str (text "error"))
    ∷ (text "error", str (text "not_connected"))
    ∷ [])

-- Peer::createPairingOffer, with the new identity
unfoldable pub create_pairing_offer : Text → Peer → Peer
create_pairing_offer id st =
    if st.ready
    then emit
        (relay_sends (object ((text "type", str (text "pair-offer")) ∷ (text "id", str id) ∷ [])))
        st
    else emit (posts_pairing_event (not_connected id)) st

-- Peer::claimPairingOffer
unfoldable pub claim_pairing_offer : Text → Text → Text → Peer → Peer
claim_pairing_offer id code host st =
    if st.ready
    then emit
        (relay_sends (
          object (
            (text "type", str (text "pair-claim"))
            ∷ (text "id", str id)
            ∷ (text "code", str code)
            ∷ (text "host", str host)
            ∷ [])))
        st
    else emit (posts_pairing_event (not_connected id)) st

-- Peer::confirmPairing
unfoldable pub confirm_pairing : Text → Peer → Peer
confirm_pairing id st =
    if st.ready
    then emit
        (relay_sends
          (object ((text "type", str (text "pair-confirm")) ∷ (text "pairingId", str id) ∷ [])))
        st
    else st

-- Peer::cancelPairing
unfoldable pub cancel_pairing : Text → Peer → Peer
cancel_pairing id st =
    if st.ready && not (is_empty id)
    then emit
        (relay_sends (object ((text "type", str (text "pair-cancel")) ∷ (text "id", str id) ∷ [])))
        st
    else st

-- ===== src/Lan/Events.antt =====
-- src/LanPeer.cpp: the timer, the start and the end of a host and of a client, and one turn of the
-- event loop. `stopping` is true only inside of `stop`, whose sockets no longer signal.
use ii_server_host.Prelude.Dict
use ii_server_host.Prelude.{
  ltb, leb, if◌then◌else◌, is_some, length, all, ℕ, ◌+◌, Bool, true, false, ◌&&◌, ◌||◌, not, Option,
  none, some, List, [], ◌∷◌,
}
use ii_server_host.Prelude.Text.{Text, Bytes, text, is_empty}
use ii_server_host.Json.{Object}
use ii_server_host.Protocol.{error, identifier, is_over}
use ii_server_host.Prelude.Dict.{nat_eq, text_eq, Dict}
use ii_server_host.Lan.Link.{
  Links, LanLink, no_link, local_address, decode_link, Digests, Interface, lan_addresses,
}
use ii_server_host.Lan.State.{
  Socket, Session, idle, hosting, connecting, failed, Effect, closes, aborts, completes, changes,
  Lan, emit, emit_all, drop_client, complete_all, without_code,
}
use ii_server_host.Lan.Client.{fail, open_address}

-- The first part of Private::sweep
unfoldable pub expire_offer : ℕ → Lan → Lan
expire_offer now st =
    if not (is_empty st.qr) && is_over st.offer.expires_at now
    then emit changes (record st {
      qr = [];
      offer = without_code st.offer;
      phase = failed;
      error_text = text "The QR code expired. Show a new code.";
    })
    else if not (is_empty st.qr)
    then emit changes st
    else st

abbrev pub is_late : ℕ → Option Session → Bool
is_late now none = true  -- a default session
is_late now (some session) = not session.paired && leb session.deadline now

unfoldable pub close_late : ℕ → List Socket → Lan → Lan
close_late now [] st = st
close_late now (s ∷ ss) st =
    close_late now ss (if is_late now (Dict.find s st.clients) then emit (closes s) st else st)

abbrev expire_found : ℕ → Text → Lan → Option ℕ → Lan
expire_found now id st none = st
expire_found now id st (some deadline) =
    if leb deadline now
    then emit (completes id (error (text "timeout")))
        (record st { requests = Dict.remove id st.requests })
    else st

unfoldable pub expire_request : ℕ → Text → Lan → Lan
expire_request now id st = expire_found now id st (Dict.find id st.requests)

unfoldable pub expire_requests : ℕ → List Text → Lan → Lan
expire_requests now [] st = st
expire_requests now (id ∷ ids) st = expire_requests now ids (expire_request now id st)

abbrev aborted : List Socket → List Effect
aborted [] = []
aborted (s ∷ ss) = aborts s ∷ aborted ss

-- LanPeer::stop
unfoldable pub stop : Lan → Lan
stop st =
    let cut =
      emit_all (aborted (Dict.keys st.clients)) (drop_client (record st { server = false })) in
    emit changes (
      complete_all (error (text "stopped")) (record cut {
        clients = [];
        client_paired = false;
        offer = no_link;
        joining = no_link;
        qr = [];
        error_text = [];
        peer_name = [];
        expected_peer = [];
        verification_code = [];
        client_nonce = [];
        phase = idle;
        connection_error = [];
      }))

-- LanPeer::setPairingAuthentication
unfoldable pub set_pairing_authentication :
    Option (Bytes → Object) → Option (Bytes → Object → Bool) → Lan → Lan
set_pairing_authentication signer verifier st = record (stop st) {
  signer = signer;
  verifier = verifier;
}

-- What a build that can host, its interfaces and its listener answer.
pub record HostSetup : Type 0 where
  pub can_host : Bool  -- IIWEBSERVER_LAN_HOST
  pub interfaces : List Interface
  pub has_identity : Bool  -- of createLanIdentity(addresses)
  pub fingerprint : Text
  pub listener : Option ℕ  -- the port of the listener, if there is one
  pub listener_error : Text

-- The addresses that startHost goes on with
unfoldable pub host_addresses : Links → HostSetup → List Text → List Text
host_addresses links setup addresses =
    if is_empty addresses then lan_addresses links setup.interfaces else addresses

-- Why startHost refuses; `none` goes on to the listener's answer.
unfoldable pub host_error : Links → HostSetup → Text → Text → Bool → List Text → Option Text
host_error links setup host_id name has_handler addresses =
    if not setup.can_host
    then some (text "Only desktop Society can host Files.")
    else if is_empty addresses
    then some (text "Connect this desktop to Wi-Fi or Ethernet before showing a QR code.")
    else if not (all (local_address links) addresses)
    then some (text "A private local IPv4 address is required.")
    else if not (identifier host_id) || is_empty name || ltb 128 (length name) || not has_handler
    then some (text "Invalid local host identity.")
    else if not setup.has_identity
    then some (text "Could not create the desktop TLS identity.")
    else if not (is_some setup.listener)
    then some setup.listener_error
    else none

abbrev port_of : Option ℕ → ℕ
port_of none = 0
port_of (some port) = port

abbrev host_started : HostSetup → Text → Text → List Text → Lan → Option Text → Bool × Lan
host_started setup host_id name addresses stopped (some message) = (false, fail message stopped)
host_started setup host_id name addresses stopped none =
    let offer : LanLink = record {
      addresses = addresses;
      port = port_of setup.listener;
      host_id = host_id;
      name = name;
      fingerprint = setup.fingerprint;
      code = [];
      expires_at = none;
    } in
    (true, emit changes (record stopped { server = true; offer = offer; phase = hosting }))

-- LanPeer::startHost
unfoldable pub start_host : Links → HostSetup → Text → Text → Bool → List Text → Lan → Bool × Lan
start_host links setup host_id name has_handler addresses st =
    let chosen = host_addresses links setup addresses in
    host_started setup host_id name chosen (stop st)
      (host_error links setup host_id name has_handler chosen)

module _ (digests : Digests) where
  -- The part of Private::sweep on the client's socket
  unfoldable pub check_client : ℕ → Socket → Lan → Lan
  check_client now s st =
      if is_some st.client && not st.client_paired
      then if leb st.deadline now
        then fail (text "Pairing timed out. Check the local network and scan a new QR code.") st
        else if not st.hello_sent && leb st.connect_deadline now
        then open_address digests s now st
        else st
      else st

  -- Private::sweep, with the number of a socket that it may make
  unfoldable pub sweep : ℕ → Socket → Lan → Lan
  sweep now s st =
      let a = expire_offer now st in
      let b = close_late now (Dict.keys a.clients) a in
      let c = check_client now s b in expire_requests now (Dict.keys c.requests) c

  abbrev join_link : Text → Text → Socket → ℕ → Lan → Option LanLink → Bool × Lan
  join_link peer name s now st none =
      (false, fail (text "This is not a valid, current local Society QR code.") st)
  join_link peer name s now st (some link) =
      if is_over link.expires_at now
        || not (identifier peer)
        || is_empty name
        || ltb 128 (length name)
      then (false, fail (text "This is not a valid, current local Society QR code.") st)
      else (
        true,
        emit changes (
            open_address digests s now (record st {
              joining = link;
              client_id = peer;
              client_name = name;
              phase = connecting;
              deadline = now + 15000;
              address_index = 0;
            })),
      )

  -- LanPeer::join, with the number of the first socket
  unfoldable pub join : Links → Text → Text → Text → Socket → ℕ → Lan → Bool × Lan
  join links qr peer name s now st = join_link peer name s now (stop st) (decode_link links qr)

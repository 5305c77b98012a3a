-- ===== src/Lan/Client.antt =====
-- src/LanPeer.cpp: the side that joins a host, by the addresses of a link. A socket that is opened
-- comes in as a new number; `QObject::disconnect` before each `abort` ends the signals of the old one.
use ii_server_host.Prelude.Dict
use ii_server_host.Prelude.{
  ltb, leb, if◌then◌else◌, is_some, length, ℕ, zero, suc, ◌+◌, ◌-◌, Bool, true, false, ◌&&◌, ◌||◌,
  not, Option, none, some, List, [], ◌∷◌, ◌++◌,
}
use ii_server_host.Prelude.Text.{Text, text, eq}
use ii_server_host.Json.{
  Json, num, str, obj, Object, is_string, to_str, to_object, value, size, object, is_null_object,
}
use ii_server_host.Protocol.{wire_limit, error, pin_certificate}
use ii_server_host.Prelude.Dict.{nat_eq, text_eq, Dict}
use ii_server_host.Lan.Link.{Digests, authentication_context, verification}
use ii_server_host.Lan.State.{
  Socket, verifying, confirming, paired_up, failed, same_phase, opens, completes, changes, pairs,
  posts_completion, posts_request, Lan, emit, send_to, drop_client, complete_all, without_code,
  member, signs, verifies, labelled, is_configured, is_one, opens_files,
}

-- Private::fail
unfoldable pub fail : Text → Lan → Lan
fail message st =
    let told = record st {
      error_text = message;
      phase = failed;
      qr = [];
      joining = without_code st.joining;
      client_paired = false;
    } in
    emit changes (complete_all (error (text "connection_lost")) (drop_client told))

abbrev unreachable : Text
unreachable =
    text "Cannot reach the desktop. Use the same Wi-Fi or LAN and allow Society in the firewall. "

abbrev pub address_at : ℕ → List Text → Option Text
address_at i [] = none
address_at zero (a ∷ rest) = some a
address_at (suc i) (a ∷ rest) = address_at i rest

abbrev pub send_client : Object → Lan → Lan
send_client m st = elim st.client [ none ↦ st | some s ↦ send_to s m st ]

abbrev pub or_else : Text → Json → Text
or_else default v = if is_string v then to_str v else default

unfoldable pub from_host : Object → Lan → Bool
from_host m st = eq (member (text "host") m) st.joining.host_id

-- The `ready` branch of clientMessage
unfoldable pub ready : Object → Lan → Lan
ready m st =
    let seen = record st { phase = verifying } in
    if not (opens_files (to_object (value (text "files") m)))
    then fail (text "The desktop could not open its Files. Pairing was not completed.") seen
    else send_client (object ((text "type", str (text "confirm")) ∷ [])) seen

-- The `paired` branch
unfoldable pub joined : Object → Lan → Lan
joined m st =
    if is_configured st && not st.authenticated
    then fail (text "Host account authentication required.") st
    else emit (pairs st.joining.host_id) (
        emit changes (record st {
          client_paired = true;
          phase = paired_up;
          peer_name = member (text "name") m;
          client_binary = is_one (value (text "binary") m);
        }))

-- The `response` branch
unfoldable pub responded : Object → Lan → Lan
responded m st =
    let id = member (text "id") m in
    if not (Dict.contains id st.requests)
    then st
    else emit (completes id (to_object (value (text "result") m)))
        (record st { requests = Dict.remove id st.requests })

-- clientMessage behind the check of the host's proof
unfoldable pub checked_message : Object → ℕ → Lan → Lan
checked_message m now st =
    let type = member (text "type") m in
    if eq type (text "verify") && same_phase st.phase verifying && from_host m st
    then emit changes (record st { phase = confirming; deadline = now + 60000 })
    else if eq type (text "ready")
        && (same_phase st.phase verifying || same_phase st.phase confirming)
        && from_host m st
    then ready m st
    else if eq type (text "paired") && same_phase st.phase verifying && from_host m st
    then joined m st
    else if eq type (text "response") && st.client_paired
    then responded m st
    else fail (text "The desktop returned an invalid local pairing response.") st

unfoldable pub host_proves : Object → Lan → Bool
host_proves m st =
    verifies st.verifier (labelled (text "host") st.authentication)
      (to_object (value (text "proof") m))

-- Private::clientMessage
unfoldable pub client_message : Object → ℕ → Lan → Lan
client_message m now st =
    let type = member (text "type") m in
    if eq type (text "error")
    then fail (or_else (text "Pairing failed. Scan a new QR code.") (value (text "error") m)) st
    else if (eq type (text "verify") || eq type (text "ready")) && is_configured st
    then if not (host_proves m st)
      then fail (text "Host account authentication failed.") st
      else checked_message m now (record st { authenticated = true })
    else checked_message m now st

-- The handler of binaryMessageReceived, on the decoded frame
unfoldable pub client_frame : Object → ℕ → Lan → Lan
client_frame m now st =
    if not st.client_paired || not st.client_binary
    then fail (text "Unnegotiated binary frame.") st
    else client_message m now st

-- The handler of disconnected
unfoldable pub client_disconnected : Lan → Lan
client_disconnected st = fail (text "The desktop disconnected. Scan a new QR code to reconnect.") st

module _ (digests : Digests) where
  open digests use {from_hex, to_hex}

  abbrev pub open_next : Socket → ℕ → Lan → Option Text → Lan
  open_next s now st none = fail (unreachable ++ st.connection_error) st
  open_next s now st (some address) =
      let made = record st { client = some s; client_binary = false } in
      if not (is_some (pin_certificate from_hex to_hex st.joining.fingerprint))
      then fail (text "Invalid desktop certificate fingerprint.") made
      else emit (opens s address st.joining.port) (record made {
        hello_sent = false;
        address_index = suc st.address_index;
        connect_deadline = now + 4000;
      })

  -- Private::openAddress, with the number of the socket that it makes
  unfoldable pub open_address : Socket → ℕ → Lan → Lan
  open_address s now st =
      let cut = drop_client st in
      open_next s now cut (address_at cut.address_index cut.joining.addresses)

  -- The client's socket is connected. `fingerprint` is that of the certificate that its peer
  -- showed, `nonce` the random text that is drawn.
  unfoldable pub client_connected : Text → Text → Lan → Lan
  client_connected fingerprint nonce st =
      let context = authentication_context digests st.joining st.client_id nonce in
      let proof = signs st.signer (labelled (text "client") context) in
      let started = record st {
        hello_sent = true;
        phase = verifying;
        client_nonce = nonce;
        verification_code = verification digests st.joining st.client_id nonce;
        authenticated = false;
        authentication = context;
      } in
      let sent =
        send_client
          (object (
            (text "proof", obj proof)
            ∷ (text "type", str (text "pair"))
            ∷ (text "host", str st.joining.host_id)
            ∷ (text "code", str st.joining.code)
            ∷ (text "peerId", str st.client_id)
            ∷ (text "name", str st.client_name)
            ∷ (text "nonce", str nonce)
            ∷ (text "binary", num 1)
            ∷ []))
          started in
      if not (eq fingerprint st.joining.fingerprint)
      then fail (text "The desktop certificate does not match the QR code.") st
      else if is_configured st
          && (not (is_some st.signer) || not (is_some st.verifier) || is_null_object proof)
      then fail (text "Account authentication required.") started
      else emit changes (record sent { joining = without_code sent.joining })

  -- The handler of errorOccurred: before the hello, the next address is tried.
  unfoldable pub client_error : Text → Socket → ℕ → Lan → Lan
  client_error message s now st =
      let noted = record st { connection_error = message } in
      if not st.hello_sent
      then open_address s now noted
      else fail (text "The local connection failed. Scan a new QR code.") noted

-- LanPeer::request, with the new identity and the size of the payload's JSON text
unfoldable pub request : Text → Text → Object → ℕ → ℕ → Lan → Lan
request id host payload size now st =
    if not st.client_paired
      || not (eq host st.joining.host_id)
      || leb 32 (length st.requests)
      || ltb (wire_limit - 1024) size
    then emit (posts_completion id (error (text "not_connected_or_busy"))) st
    else emit (posts_request id payload)
        (record st { requests = Dict.insert id (now + 15000) st.requests })

-- The zero timer of a request; `sent` is what the transport answers.
unfoldable pub post_request : Text → Object → Bool → Lan → Lan
post_request id payload sent st =
    if not (Dict.contains id st.requests) then st else elim st.client [
      | none ↦ fail (text "The local connection closed.") st
      | some s ↦
          if sent
          then send_to s
              (object (
                (text "type", str (text "request"))
                ∷ (text "id", str id)
                ∷ (text "payload", obj payload)
                ∷ []))
              st
          else fail (text "The local connection closed.") st
    ]

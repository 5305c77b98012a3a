-- ===== src/Lan/Offers.antt =====
-- src/LanPeer.cpp: the connections of the host, its offers, and the approval of a device that was
-- discovered.
use ii_server_host.Prelude.Dict
use ii_server_host.Prelude.{
  ltb, leb, if◌then◌else◌, is_some, length, ℕ, ◌+◌, ◌*◌, Bool, false, ◌&&◌, ◌||◌, not, Option, none,
  some, List, [], ◌∷◌,
}
use ii_server_host.Prelude.Text.{Text, text, eq, is_empty}
use ii_server_host.Json.{Object, is_null_object}
use ii_server_host.Protocol.{identifier}
use ii_server_host.Prelude.Dict.{nat_eq, text_eq, Dict}
use ii_server_host.Prelude.Int.{pos}
use ii_server_host.Lan.Link.{Links, local_address, encode_link}
use ii_server_host.Lan.State.{
  Socket, Session, Phase, idle, hosting, showing, verifying, confirming, paired_up, failed,
  same_phase, closes, aborts, changes, Lan, emit, drop_client, put_session, without_code, signs,
  labelled, opens_files, handled,
}
use ii_server_host.Lan.Host.{open_files}

unfoldable pub new_session : ℕ → Session
new_session now = record {
  id = [];
  name = [];
  paired = false;
  deadline = now + 5000;
  awaiting_approval = false;
  binary = false;
  iish_binary = false;
  authentication = [];
}

-- A connection that the server hands over, from this address
unfoldable pub accept : Links → Socket → Text → ℕ → Lan → Lan
accept links s address now st =
    if leb 8 (length st.clients) || not (local_address links address)
    then emit (closes s) st
    else put_session s (new_session now) st

abbrev pub interrupts : Phase → Option Session → Bool
interrupts phase none = false
interrupts phase (some session) =
    not (is_empty session.id) && not session.paired && same_phase phase verifying

-- A device's socket has disconnected.
unfoldable pub host_disconnected : Socket → Lan → Lan
host_disconnected s st =
    let taken = record st { clients = Dict.remove s st.clients } in
    if interrupts st.phase (Dict.find s st.clients)
    then emit changes (record taken {
      phase = failed;
      error_text = text "Pairing was interrupted. Show a new QR code.";
    })
    else emit changes taken

abbrev pub is_paired : Option Session → Bool
is_paired none = false
is_paired (some session) = session.paired

-- A device that is not paired is dropped.
unfoldable pub drop_unpaired : Socket → Lan → Lan
drop_unpaired s st =
    if is_paired (Dict.find s st.clients)
    then st
    else emit (aborts s) (record st { clients = Dict.remove s st.clients })

unfoldable pub drop_all_unpaired : List Socket → Lan → Lan
drop_all_unpaired [] st = st
drop_all_unpaired (s ∷ ss) st = drop_all_unpaired ss (drop_unpaired s st)

-- LanPeer::cancelPairing
unfoldable pub cancel_pairing : Lan → Lan
cancel_pairing st =
    let hidden = record st {
      qr = [];
      offer = without_code st.offer;
      expected_peer = [];
      verification_code = [];
    } in
    let cut = drop_all_unpaired (Dict.keys st.clients) hidden in
    let left = if cut.client_paired then cut else drop_client cut in
    emit changes (record left {
      phase = if left.server then hosting else (if left.client_paired then paired_up else idle);
      error_text = [];
    })

-- LanPeer::createOffer, with the random code that is drawn. The answer is the new QR text.
unfoldable pub create_offer : Links → ℕ → Text → ℕ → Lan → Text × Lan
create_offer links lifetime code now st =
    if not st.server || ltb lifetime 1 || ltb 60 lifetime
    then ([], st)
    else (let cancelled = cancel_pairing st in
        let offer = record cancelled.offer {
          code = code;
          expires_at = some (pos (now + 1000 * lifetime));
        } in
        let qr = encode_link links offer in
        (qr, emit changes (record cancelled { phase = showing; offer = offer; qr = qr })))

-- LanPeer::createDeviceOffer
unfoldable pub create_device_offer : Links → Text → ℕ → Text → ℕ → Lan → Text × Lan
create_device_offer links peer lifetime code now st =
    if not (identifier peer) || eq peer st.offer.host_id
    then ([], st)
    else (let made = create_offer links lifetime code now st in
        if is_empty made.0 then made else (made.0, record made.1 { expected_peer = peer }))

-- One round of the loop of confirmDevice, `none` to go on
abbrev pub confirm_found : Socket → ℕ → Option Object → Lan → Option Session → Option (Bool × Lan)
confirm_found s now answer st none = none
confirm_found s now answer st (some session) =
    if not session.awaiting_approval || leb session.deadline now
    then none
    else (let approved = record session { awaiting_approval = false; deadline = now + 15000 } in
        let kept = put_session s approved st in
        let proof = signs st.signer (labelled (text "host") session.authentication) in
        if is_some st.signer && is_null_object proof
        then some (false, emit (closes s) kept)
        else some (opens_files (handled answer), open_files s session.id proof answer kept))

unfoldable pub confirm_first : List Socket → ℕ → Option Object → Lan → Bool × Lan
confirm_first [] now answer st = (false, st)
confirm_first (s ∷ ss) now answer st =
    let rest = confirm_first ss now answer st in
    elim (confirm_found s now answer st (Dict.find s st.clients)) [ none ↦ rest | some done ↦ done ]

-- LanPeer::confirmDevice
unfoldable pub confirm_device : ℕ → Option Object → Lan → Bool × Lan
confirm_device now answer st =
    if not (same_phase st.phase confirming)
    then (false, st)
    else confirm_first (Dict.keys st.clients) now answer st

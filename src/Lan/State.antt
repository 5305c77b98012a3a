-- ===== src/Lan/State.antt =====
-- src/LanPeer.cpp: the state of `LanPeer::Private`, what it does to its sockets and signals, and the
-- queries. A socket is a number; an invalid `QDateTime` of a deadline is 0.
use ii_server_host.Prelude.Dict
use ii_server_host.Prelude.{
  ◌==◌, if◌then◌else◌, is_some, ℕ, ◌+◌, ◌-◌, ◌/◌, Bool, true, false, ◌&&◌, ◌||◌, Option, none, some,
  List, [], ◌∷◌, ◌++◌,
}
use ii_server_host.Prelude.Text.{Text, Bytes, text, is_empty}
use ii_server_host.Json.{Json, num, str, Object, end, is_array, to_str, to_bool, value, object}
use ii_server_host.Protocol.{error}
use ii_server_host.Prelude.Dict.{nat_eq, text_eq, Dict}
use ii_server_host.Prelude.Int.{ℤ, pos, negsuc}
use ii_server_host.Lan.Link.{LanLink, no_link}

abbrev pub Socket : Type 0
Socket = ℕ

pub record Session : Type 0 where
  pub id : Text
  pub name : Text
  pub paired : Bool
  pub deadline : ℕ
  pub awaiting_approval : Bool
  pub binary : Bool
  pub iish_binary : Bool  -- the property of the session's socket
  pub authentication : Bytes

pub data Phase : Type 0 where
  idle hosting showing connecting verifying confirming paired_up failed : Phase

unfoldable pub same_phase : Phase → Phase → Bool
same_phase idle idle = true
same_phase hosting hosting = true
same_phase showing showing = true
same_phase connecting connecting = true
same_phase verifying verifying = true
same_phase confirming confirming = true
same_phase paired_up paired_up = true
same_phase failed failed = true
same_phase _ _ = false

-- What is done, in order. `calls` runs the request handler for a peer.
pub data Effect : Type 0 where
  sends : Socket → Object → Effect
  closes aborts : Socket → Effect
  opens : Socket → Text → ℕ → Effect
  calls : Text → Object → Effect
  completes : Text → Object → Effect
  changes : Effect
  pairs : Text → Effect
  posts_completion : Text → Object → Effect  -- a zero timer that signals it
  posts_request : Text → Object → Effect  -- a zero timer that sends it

pub record Lan : Type 0 where
  pub server : Bool  -- there is a listening server
  pub client : Option Socket
  pub client_binary : Bool  -- its property iish.binary
  pub clients : Dict Socket Session
  pub requests : Dict Text ℕ
  pub signer : Option (Bytes → Object)
  pub verifier : Option (Bytes → Object → Bool)
  pub authentication : Bytes
  pub authenticated : Bool
  pub offer : LanLink
  pub joining : LanLink
  pub phase : Phase
  pub error_text : Text
  pub qr : Text
  pub peer_name : Text
  pub client_id : Text
  pub client_name : Text
  pub connection_error : Text
  pub expected_peer : Text
  pub verification_code : Text
  pub client_nonce : Text
  pub deadline : ℕ
  pub connect_deadline : ℕ
  pub address_index : ℕ
  pub client_paired : Bool
  pub hello_sent : Bool
  pub out : List Effect

unfoldable pub fresh : Lan
fresh = record {
  server = false;
  client = none;
  client_binary = false;
  clients = [];
  requests = [];
  signer = none;
  verifier = none;
  authentication = [];
  authenticated = false;
  offer = no_link;
  joining = no_link;
  phase = idle;
  error_text = [];
  qr = [];
  peer_name = [];
  client_id = [];
  client_name = [];
  connection_error = [];
  expected_peer = [];
  verification_code = [];
  client_nonce = [];
  deadline = 0;
  connect_deadline = 0;
  address_index = 0;
  client_paired = false;
  hello_sent = false;
  out = [];
}

unfoldable pub emit : Effect → Lan → Lan
emit e st = record st { out = st.out ++ e ∷ [] }

unfoldable pub emit_all : List Effect → Lan → Lan
emit_all es st = record st { out = st.out ++ es }

abbrev pub send_to : Socket → Object → Lan → Lan
send_to s m st = emit (sends s m) st

-- disconnect, abort and deleteLater, on the client socket if there is one
abbrev pub dropped : Option Socket → List Effect
dropped none = []
dropped (some s) = aborts s ∷ []

unfoldable pub drop_client : Lan → Lan
unfolding emit_all
drop_client st = emit_all (dropped st.client) (record st { client = none })

unfoldable pub completions : Object → List Text → List Effect
completions result [] = []
completions result (id ∷ ids) = completes id result ∷ completions result ids

unfoldable pub complete_all : Object → Lan → Lan
unfolding emit_all completions
complete_all result st =
    emit_all (completions result (Dict.keys st.requests)) (record st { requests = [] })

unfoldable pub put_session : Socket → Session → Lan → Lan
put_session s session st = record st { clients = Dict.insert s session st.clients }

unfoldable pub without_code : LanLink → LanLink
without_code link = record link { code = [] }

unfoldable pub member : Text → Object → Text
unfolding to_str
member k m = to_str (value k m)

abbrev pub signs : Option (Bytes → Object) → Bytes → Object
signs none context = end
signs (some signer) context = signer context

abbrev pub verifies : Option (Bytes → Object → Bool) → Bytes → Object → Bool
verifies none context proof = false
verifies (some verifier) context proof = verifier context proof

-- The label that keeps the two sides' signatures apart
abbrev pub labelled : Text → Bytes → Bytes
labelled label context = label ++ 10 ∷ context

-- Is pairing authentication configured, in part or in full?
abbrev pub is_configured : Lan → Bool
is_configured st = is_some st.signer || is_some st.verifier

-- The QR code, or a message, says `1`.
unfoldable pub is_one : Json → Bool
is_one (num n) = n == 1
is_one _ = false

-- Does the handler's answer to a listing open the Files?
unfoldable pub opens_files : Object → Bool
unfolding to_bool
opens_files files = to_bool (value (text "ok") files) && is_array (value (text "entries") files)

-- What the handler has answered, `none` for an exception
abbrev pub handled : Option Object → Object
handled none = error (text "host_error")
handled (some result) = result

abbrev pub list_files : Object
list_files = object ((text "op", str (text "list")) ∷ (text "path", str []) ∷ [])

unfoldable pub add_paired : Dict Socket Session → List Text
add_paired [] = []
add_paired ((s, session) ∷ rest) =
    let ids = add_paired rest in if session.paired then session.id ∷ ids else ids

-- LanPeer::pairedDeviceIds
unfoldable pub paired_device_ids : Lan → List Text
paired_device_ids st =
    (if st.client_paired then st.joining.host_id ∷ [] else []) ++ add_paired st.clients

-- LanPeer::peers
unfoldable pub peers : Lan → List Object
peers st =
    if st.client_paired
    then object ((text "peerId", str st.joining.host_id) ∷ (text "name", str st.peer_name) ∷ [])
      ∷ []
    else []

-- LanPeer::verificationCode
unfoldable pub shown_code : Lan → Text
shown_code st = if same_phase st.phase confirming then st.verification_code else []

-- LanPeer::binaryTransferEnabled
unfoldable pub binary_transfer_enabled : Lan → Bool
binary_transfer_enabled st = st.client_paired && is_some st.client && st.client_binary

-- The milliseconds that an offer has left; `negsuc` once it is over.
abbrev milliseconds_left : Option ℤ → ℕ → ℕ
milliseconds_left none now = 0
milliseconds_left (some (pos n)) now = n - now
milliseconds_left (some (negsuc n)) now = 0

-- LanPeer::secondsRemaining, rounded up and never negative
unfoldable pub seconds_remaining : Lan → ℕ → ℕ
seconds_remaining st now =
    if is_empty st.qr
    then 0
    else (let left = milliseconds_left st.offer.expires_at now in
        if left == 0 then 0 else (left + 999) / 1000)

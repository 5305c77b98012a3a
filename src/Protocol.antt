-- ===== src/Protocol.antt =====
-- src/Protocol.h: identifiers, endpoints, principals and the sending of a message. What Qt and the
-- network library answer comes in by parameters.
use ii_server_host.Prelude.Int.{ℤ, pos, negsuc}
use ii_server_host.Prelude.{
  ltb, leb, ◌==◌, if◌then◌else◌, length, all, ℕ, ◌*◌, Bool, true, false, ◌&&◌, ◌||◌, not, Option,
  none, some, List, [], ◌∷◌,
}
use ii_server_host.Prelude.Text.{Text, Bytes, text, eq, is_empty, to_latin1, is_alnum}
use ii_server_host.Json.{bool, str, Object, object}
use ii_server_host.BinaryFrame.{Codec, encode}

abbrev pub wire_limit : ℕ
wire_limit = 1048576

-- protocol::error
unfoldable pub error : Text → Object
error code = object ((text "ok", bool false) ∷ (text "error", str code) ∷ [])

unfoldable pub identifier_unit : ℕ → Bool
unfolding is_alnum
identifier_unit u = is_alnum u || u == b'_' || u == b'.' || u == b':' || u == b'-'

-- protocol::identifier, the pattern [a-zA-Z0-9_.:-]{1,128} over the whole text
unfoldable pub identifier : Text → Bool
unfolding identifier_unit
identifier s = leb 1 (length s) && leb (length s) 128 && all identifier_unit s

-- An address as `Address::parse` answers for it.
pub record Address : Type 0 where
  pub is_loopback : Bool
  pub is_multicast : Bool
  pub is_unspecified : Bool
  pub ipv4 : Bool
  pub string : Text
  pub bytes : List ℕ

-- What is asked of a `QUrl`; the port -1 is `none`.
pub record Url : Type 0 where
  pub valid : Bool
  pub scheme : Text
  pub host : Text
  pub port : Option ℕ
  pub user_info : Text
  pub has_query : Bool
  pub has_fragment : Bool
  pub string : Text
  pub relative : Bool
  pub encoded_size : ℕ  -- toEncoded().size()
  pub local_file : Text

abbrev pub port_is_zero : Option ℕ → Bool
port_is_zero none = false
port_is_zero (some p) = p == 0

pub record Principal : Type 0 where
  pub account_id : Text
  pub expires_at : ℕ  -- milliseconds since the epoch

-- protocol::live
unfoldable pub live : Principal → ℕ → Bool
live p now = not (is_empty p.account_id) && leb (length p.account_id) 256 && ltb now p.expires_at

abbrev loops : Option Address → Bool
loops none = false
loops (some a) = a.is_loopback

module _ (parse_address : Text → Option Address) where
  -- protocol::loopback
  unfoldable pub loopback : Text → Bool
  loopback host = loops (parse_address host)

  -- protocol::endpoint
  unfoldable pub endpoint : Url → Text → Text → Bool
  endpoint url secure plain =
      url.valid
      && not (is_empty url.host)
      && not (port_is_zero url.port)
      && not url.has_fragment
      && not url.has_query
      && is_empty url.user_info
      && (eq url.scheme secure || (eq url.scheme plain && loopback url.host))

-- protocol::pinCertificate: `none` is a refusal. `from_hex` and `to_hex` are those of `QByteArray`.
unfoldable pub pin_certificate : (Bytes → Bytes) → (Bytes → Bytes) → Text → Option Bytes
pin_certificate from_hex to_hex fingerprint =
    let bytes = from_hex (to_latin1 fingerprint) in
    if not (length fingerprint == 64)
      || not (length bytes == 32)
      || not (eq (to_hex bytes) (to_latin1 fingerprint))
    then none
    else some bytes

-- A socket as `send` sees it.
pub record Outlet : Type 0 where
  pub connected : Bool
  pub binary : Bool
  pub bytes_to_write : ℕ

pub data Sent : Type 0 where
  not_sent capacity_exceeded : Sent
  sent_binary sent_text : Bytes → Sent

-- protocol::send, up to the answer of the transport
unfoldable pub send : Codec → Outlet → Object → Sent
send codec socket message =
    let frame = if socket.binary then encode codec message else [] in
    let bytes = codec.to_json message in
    if not socket.connected
    then not_sent
    else if not (is_empty frame)
    then if ltb (4 * wire_limit) socket.bytes_to_write then capacity_exceeded else sent_binary frame
    else if ltb wire_limit (length bytes) || ltb (4 * wire_limit) socket.bytes_to_write
    then capacity_exceeded
    else sent_text bytes

-- protocol::listener, up to `WebSocketServer::listen`: `none` lets the listening go on.
unfoldable pub listener_error : Bool → Address → Option Text
listener_error has_identity address =
    if not has_identity && not address.is_loopback
    then some (text "TLS certificate and key are required for non-loopback listeners.")
    else none

-- Is this moment, in milliseconds since the epoch, not after `now`? An invalid one (`none`) is before
-- every other.
unfoldable pub is_over : Option ℤ → ℕ → Bool
is_over none now = true
is_over (some (pos n)) now = leb n now
is_over (some (negsuc n)) now = true

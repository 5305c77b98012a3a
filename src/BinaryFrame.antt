-- ===== src/BinaryFrame.antt =====
-- src/BinaryFrame.h: the local transport codec. `QJsonDocument` and the base64 routines of Qt are
-- the operations of a `Codec`.
pub mod RoundTrip
pub mod Paths
pub mod Frames
use ii_server_host.Prelude.{
  ltb, leb, ◌==◌, if◌then◌else◌, length, take, drop, ℕ, zero, suc, ◌+◌, ◌-◌, ◌*◌, ◌/◌, ◌%◌, Bool,
  false, ◌&&◌, ◌||◌, not, Option, none, some, List, [], ◌∷◌, ◌++◌,
}
use ii_server_host.Prelude.Text.{
  Text, Bytes, text, eq, is_empty, starts_with, to_latin1, from_latin1,
}
use ii_server_host.Json.{
  Json, undefined, num, str, obj, Object, end, is_string, is_object, to_str, to_object, to_int,
  value, has, size, insert, object,
}

pub record Codec : Type 0 where
  pub to_json : Object → Bytes
  pub from_json : Bytes → Option Object
  pub to_base64 : Bytes → Bytes
  pub from_base64 : Bytes → Option Bytes

abbrev pub KeyPath : Type 0
KeyPath = List Text

-- BinaryFrame::paths
unfoldable pub paths : List KeyPath
paths =
    (text "payload" ∷ text "message" ∷ text "data" ∷ [])
    ∷ (text "result" ∷ text "result" ∷ text "data" ∷ [])
    ∷ (text "result" ∷ text "data" ∷ [])
    ∷ []

-- BinaryFrame::at
unfoldable pub at : Object → KeyPath → Json
at object [] = undefined
at object (k ∷ []) = value k object
at object (k ∷ j ∷ path) =
    let rest = at (to_object (value k object)) (j ∷ path) in
    if is_object (value k object) then rest else undefined

-- BinaryFrame::replace; `insert` with an undefined value removes the key.
unfoldable pub replace : Object → KeyPath → Json → Object
replace object [] v = object
replace object (k ∷ []) v = insert k v object
replace object (k ∷ j ∷ path) v =
    insert k (obj (replace (to_object (value k object)) (j ∷ path) v)) object

abbrev pub maximum_payload : ℕ
maximum_payload = 262144

abbrev pub maximum_header : ℕ
maximum_header = 65536

-- qToBigEndian(quint32) and qFromBigEndian<quint32>
unfoldable pub be32 : ℕ → Bytes
be32 n = (n / 16777216 % 256) ∷ (n / 65536 % 256) ∷ (n / 256 % 256) ∷ (n % 256) ∷ []

unfoldable pub from_be32 : Bytes → ℕ
from_be32 (a ∷ b ∷ c ∷ d ∷ rest) = a * 16777216 + b * 65536 + c * 256 + d
from_be32 _ = 0

unfoldable pub header_object : ℕ → Object → Object
header_object i message = object ((text "path", num i) ∷ (text "message", obj message) ∷ [])

unfoldable pub frame_of : Bytes → Bytes → Bytes
frame_of header decoded = text "ISB1" ++ (be32 (length header) ++ (header ++ decoded))

-- The walk of `decode` along the keys above the last, and its test for a member `data`.
unfoldable pub open_parent : Object → KeyPath → Bool
open_parent parent [] = false
open_parent parent (k ∷ []) = not (has (text "data") parent)
open_parent parent (k ∷ j ∷ path) =
    is_object (value k parent) && open_parent (to_object (value k parent)) (j ∷ path)

unfoldable pub get_path : List KeyPath → ℕ → Option KeyPath
get_path [] i = none
get_path (p ∷ ps) zero = some p
get_path (p ∷ ps) (suc i) = get_path ps i

module _ (codec : Codec) where
  open codec use {to_json, from_json, to_base64, from_base64}

  -- The tests of a candidate in `encode`; `none` is `continue`.
  unfoldable pub checked : Bytes → Option Bytes → Option Bytes
  checked encoded none = none
  checked encoded (some decoded) =
      if is_empty decoded
        || ltb maximum_payload (length decoded)
        || not (eq (to_base64 decoded) encoded)
      then none
      else some decoded

  unfoldable pub candidate : Json → Option Bytes
  candidate v =
      let encoded = to_latin1 (to_str v) in
      if not (is_string v)
      then none
      else if ltb ((maximum_payload + 2) / 3 * 4) (length encoded)
      then none
      else checked encoded (from_base64 encoded)

  unfoldable pub framed : Bytes → Bytes → Bytes
  framed header decoded = if ltb maximum_header (length header) then [] else frame_of header decoded

  -- One round of the loop: the frame of a candidate that passes, or what the later ones give.
  unfoldable pub emit : Option Bytes → Bytes → Bytes → Bytes
  unfolding framed
  emit none later header = later
  emit (some decoded) later header = framed header decoded

  unfoldable pub encode_from : ℕ → List KeyPath → Object → Bytes
  encode_from i [] message = []
  encode_from i (p ∷ ps) message =
      emit (candidate (at message p)) (encode_from (suc i) ps message)
        (to_json (header_object i (replace message p undefined)))

  -- BinaryFrame::encode
  unfoldable pub encode : Object → Bytes
  encode message = encode_from 0 paths message

  unfoldable pub refill : Object → Bytes → Option KeyPath → Object
  refill message payload none = end
  refill message payload (some path) =
      if open_parent message path
      then replace message path (str (from_latin1 (to_base64 payload)))
      else end

  unfoldable pub path_of : Option ℕ → Option KeyPath
  path_of none = none
  path_of (some i) = get_path paths i

  -- `decode` once the header is cut out.
  unfoldable pub decode_header : Option Object → Bytes → Object
  decode_header none payload = end
  decode_header (some header) payload =
      if not (size header == 2) || not (is_object (value (text "message") header))
      then end
      else refill (to_object (value (text "message") header)) payload
          (path_of (to_int (value (text "path") header)))

  -- BinaryFrame::decode
  unfoldable pub decode : Bytes → Object
  decode frame =
      let size = from_be32 (drop 4 frame) in
      if ltb (length frame) 9
        || ltb (maximum_header + maximum_payload + 8) (length frame)
        || not (starts_with frame (text "ISB1"))
      then end
      else if size == 0
          || ltb maximum_header size
          || leb (length frame - 8) size
          || ltb maximum_payload (length frame - 8 - size)
      then end
      else decode_header (from_json (take size (drop 8 frame))) (drop (8 + size) frame)

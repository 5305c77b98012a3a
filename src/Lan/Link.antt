-- ===== src/Lan/Link.antt =====
-- src/LanPeer.cpp: the link in a QR code, its checks, its text, and what both sides derive from it.
-- What Qt answers on an URL, a number or an address comes in by `Links`.
use ii_server_host.Prelude.{
  ltb, leb, ◌==◌, if◌then◌else◌, is_some, length, take, drop, all, any, ℕ, zero, suc, ◌+◌, ◌*◌, ◌/◌,
  ◌%◌, Bool, false, ◌&&◌, ◌||◌, not, Option, none, some, List, [], ◌∷◌, ◌++◌,
}
use ii_server_host.Prelude.Text.{Text, Bytes, text, eq, is_empty, to_latin1, is_lower_hex}
use ii_server_host.Prelude.Patterns.{split_at}
use ii_server_host.Protocol.{identifier, Address, Url}
use ii_server_host.Prelude.Int.{ℤ, pos}

-- What is asked of a QR code's text as an URL with a query. `value` decodes fully.
pub record PairUrl : Type 0 where
  pub url : Url
  pub path : Text
  pub keys : List Text
  pub version : Text
  pub value : Text → Text

pub record Links : Type 0 where
  pub parse_address : Text → Option Address
  pub read_url : Text → PairUrl
  pub write_url : List (Text × Text) → Text  -- society://pair with these query items
  pub percent_encode : Text → Text
  pub number : ℤ → Text
  pub to_ushort : Text → Option ℕ
  pub to_long_long : Text → Option ℤ

-- An invalid `QDateTime` is `none`; it is before every valid one.
pub record LanLink : Type 0 where
  pub addresses : List Text
  pub port : ℕ
  pub host_id : Text
  pub name : Text
  pub fingerprint : Text
  pub code : Text
  pub expires_at : Option ℤ

abbrev pub no_link : LanLink
no_link = record {
  addresses = [];
  port = 0;
  host_id = [];
  name = [];
  fingerprint = [];
  code = [];
  expires_at = none;
}

-- hexToken, the pattern \A[a-f0-9]{64}\z
unfoldable pub hex_token : Text → Bool
hex_token s = length s == 64 && all is_lower_hex s

-- One byte of an exclusive or, and of an inclusive one, on the eight bits of a byte.
unfoldable pub xor_bits : ℕ → ℕ → ℕ → ℕ
xor_bits zero a b = 0
xor_bits (suc n) a b = (a % 2 + b % 2) % 2 + 2 * xor_bits n (a / 2) (b / 2)

unfoldable pub or_bits : ℕ → ℕ → ℕ → ℕ
or_bits zero a b = 0
or_bits (suc n) a b = (if a % 2 + b % 2 == 0 then 0 else 1) + 2 * or_bits n (a / 2) (b / 2)

-- The loop of `sameCode`, on the bytes that both texts still have.
unfoldable pub diff_loop : ℕ → Bytes → Bytes → ℕ
diff_loop diff (a ∷ s) (b ∷ t) = diff_loop (or_bits 8 diff (xor_bits 8 a b)) s t
diff_loop diff s t = diff

-- sameCode
unfoldable pub same_code : Text → Text → Bool
same_code a b =
    let first = to_latin1 a in
    let second = to_latin1 b in
    if not (length first == 64) || not (length second == 64)
    then false
    else diff_loop 0 first second == 0

abbrev pub byte : ℕ → List ℕ → ℕ
byte zero [] = 0
byte (suc i) [] = 0
byte zero (b ∷ bs) = b
byte (suc i) (b ∷ bs) = byte i bs

-- The private ranges of IPv4, by the first two bytes.
unfoldable pub private_range : ℕ → ℕ → Bool
private_range a b = a == 10 || (a == 172 && leb 16 b && leb b 31) || (a == 192 && b == 168)

abbrev pub is_local : Text → Option Address → Bool
is_local s none = false
is_local s (some address) =
    if not address.ipv4 || not (eq s address.string)
    then false
    else address.is_loopback || private_range (byte 0 address.bytes) (byte 1 address.bytes)

unfoldable pub join_with : ℕ → List Text → Text
join_with sep [] = []
join_with sep (s ∷ []) = s
join_with sep (s ∷ t ∷ ts) = s ++ sep ∷ join_with sep (t ∷ ts)

abbrev pub link_keys : List Text
link_keys =
    text "v"
    ∷ text "addresses"
    ∷ text "port"
    ∷ text "host"
    ∷ text "name"
    ∷ text "fingerprint"
    ∷ text "code"
    ∷ text "expires"
    ∷ []

abbrev pub one_of : List Text → Text → Bool
one_of names k = any (λ n. eq n k) names

-- Are the keys of the query's items these, as a set, and as many?
unfoldable pub has_keys : List Text → List Text → Bool
has_keys names keys =
    length keys == length names && all (one_of names) keys && all (one_of keys) names

-- The part of an URL that both kinds of pairing link share.
unfoldable pub is_pair_url : PairUrl → Bool
is_pair_url u =
    u.url.valid
    && eq u.url.scheme (text "society")
    && eq u.url.host (text "pair")
    && is_empty u.path
    && is_empty u.url.user_info
    && not (is_some u.url.port)
    && not u.url.has_fragment

abbrev pub time_text : (ℤ → Text) → Option ℤ → Text
time_text number none = []
time_text number (some t) = number t

module _ (links : Links) where
  open links use {parse_address, read_url, write_url, percent_encode, number}
  open links use {to_ushort, to_long_long}

  -- LanLink::localAddress
  unfoldable pub local_address : Text → Bool
  local_address s = is_local s (parse_address s)

  -- validLink
  unfoldable pub valid_link : LanLink → Bool
  valid_link link =
      if is_empty link.addresses
        || ltb 8 (length link.addresses)
        || link.port == 0
        || not (identifier link.host_id)
        || is_empty link.name
        || ltb 128 (length link.name)
        || not (hex_token link.fingerprint)
        || not (hex_token link.code)
        || not (is_some link.expires_at)
      then false
      else all local_address link.addresses

  unfoldable pub link_items : LanLink → List (Text × Text)
  link_items link =
      (text "v", text "2")
      ∷ (text "addresses", join_with b',' link.addresses)
      ∷ (text "port", number (pos link.port))
      ∷ (text "host", link.host_id)
      ∷ (text "name", percent_encode link.name)
      ∷ (text "fingerprint", link.fingerprint)
      ∷ (text "code", link.code)
      ∷ (text "expires", time_text number link.expires_at)
      ∷ []

  -- LanLink::encode
  unfoldable pub encode_link : LanLink → Text
  encode_link link = if not (valid_link link) then [] else write_url (link_items link)

  abbrev pub read_numbers : PairUrl → Option ℕ → Option ℤ → Option LanLink
  read_numbers u none time = none
  read_numbers u (some port) none = none
  read_numbers u (some port) (some time) =
      let link : LanLink = record {
        addresses = split_at b',' (u.value (text "addresses"));
        port = port;
        host_id = u.value (text "host");
        name = u.value (text "name");
        fingerprint = u.value (text "fingerprint");
        code = u.value (text "code");
        expires_at = some time;
      } in
      if not (valid_link link) then none else some link

  -- LanLink::decode; `none` is a refusal.
  unfoldable pub decode_link : Text → Option LanLink
  decode_link s =
      let u = read_url s in
      if ltb 2048 (length s)
        || not (is_pair_url u)
        || not (has_keys link_keys u.keys)
        || not (eq u.version (text "2"))
      then none
      else read_numbers u (to_ushort (u.value (text "port")))
          (to_long_long (u.value (text "expires")))

-- The hashing of a verification code, and the JSON text of an array of texts.
pub record Digests : Type 0 where
  pub array_json : List Text → Bytes
  pub to_utf8 : Text → Bytes
  pub hash : Bytes → Bytes  -- SHA-256
  pub to_hex : Bytes → Bytes
  pub from_hex : Bytes → Bytes
  pub to_upper : Bytes → Bytes

module _ (digests : Digests) where
  open digests use {array_json, to_utf8, hash, to_hex, to_upper}

  -- authenticationContext
  unfoldable pub authentication_context : LanLink → Text → Text → Bytes
  authentication_context link peer nonce =
      array_json (link.host_id ∷ peer ∷ link.fingerprint ∷ link.code ∷ nonce ∷ [])

  -- verification
  unfoldable pub verification : LanLink → Text → Text → Text
  verification link peer nonce =
      let input = join_with b':' (link.fingerprint ∷ link.code ∷ peer ∷ nonce ∷ []) in
      let digest = to_upper (take 12 (to_hex (hash (to_utf8 input)))) in
      take 4 digest ++ b'-' ∷ (take 4 (drop 4 digest) ++ b'-' ∷ take 4 (drop 8 digest))

-- An entry of `ii::network::interfaces()`.
pub record Interface : Type 0 where
  pub address : Text
  pub loopback : Bool

-- The loop of `lanAddresses`.
unfoldable pub collect_addresses : Links → List Interface → List Text → List Text
collect_addresses links [] result = result
collect_addresses links (entry ∷ entries) result = collect_addresses links entries (
    if not entry.loopback && local_address links entry.address && not (one_of result entry.address)
    then result ++ entry.address ∷ []
    else result)

-- lanAddresses
unfoldable pub lan_addresses : Links → List Interface → List Text
lan_addresses links entries = take 8 (collect_addresses links entries [])

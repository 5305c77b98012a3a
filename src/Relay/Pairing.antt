-- ===== src/Relay/Pairing.antt =====
-- Offers and pairs: `pairing`, `finishPair`, `cancelPairing` and `pairMessage`.
use ii_server_host.Prelude.{
  ltb, leb, ◌==◌, if◌then◌else◌, length, ℕ, ◌+◌, min, String, Bool, false, ◌&&◌, ◌||◌, not, Option,
  none, some, [], ◌∷◌,
}
use ii_server_host.Prelude.Text.{Text, Bytes, text, eq, is_empty, to_latin1}
use ii_server_host.Prelude.Dict.{nat_eq, text_eq, Dict}
use ii_server_host.Prelude.Dict
use ii_server_host.Json.{Json, str, Object, end, object, is_null_object}
use ii_server_host.Json
use ii_server_host.Protocol.{identifier}
use ii_server_host.Relay.State.{
  Services, Socket, Session, Offer, Pair, Relay, session_of, exists_object, send_to, close_plain,
  set_session, active, target, each, member,
}

-- Private::pairing
unfoldable pub pairing : Socket → Text → Text → Object → Relay → Relay
pairing s id status details st =
    send_to s
      (Json.insert (text "status") (str status) (
        Json.insert (text "id") (str id)
          (Json.insert (text "type") (str (text "pairing")) details)))
      st

unfoldable pub peer_details : Text → Session → Object
peer_details id peer =
    object (
      (text "pairingId", str id) ∷ (text "peerId", str peer.id) ∷ (text "name", str peer.name) ∷ [])

-- A message to a `QPointer`, if its object exists.
unfoldable pub pairing_if : Socket → Text → Text → Object → Relay → Relay
pairing_if s id status details st =
    if exists_object st s then pairing s id status details st else st

unfoldable pub without_pair : Text → Relay → Relay
without_pair id st = record st { tables = record st.tables { pairs = Dict.remove id st.pairs } }

unfoldable pub without_offer : Bytes → Relay → Relay
without_offer hash st = record st {
  tables = record st.tables { offers = Dict.remove hash st.offers };
}

unfoldable pub notify_pair : Text → Text → ℕ → Pair → Relay → Relay
notify_pair id status now p st =
    let for_host = peer_details id (session_of st now p.client) in
    let for_client = peer_details id (session_of st now p.host) in
    pairing_if p.client p.client_request status for_client
      (pairing_if p.host p.host_request status for_host st)

abbrev finish_found : Text → Text → ℕ → Option Pair → Relay → Relay
finish_found id status now none st = st
finish_found id status now (some p) st = notify_pair id status now p (without_pair id st)

-- Private::finishPair
unfoldable pub finish_pair : Text → Text → ℕ → Relay → Relay
finish_pair id status now st = finish_found id status now (Dict.find id st.pairs) st

-- Is the entry one of socket `s`, under this request if one is named?
unfoldable pub offer_matches : Socket → Text → Offer → Bool
offer_matches s request o = o.host == s && (is_empty request || eq o.request request)

unfoldable pub pair_matches : Socket → Text → Pair → Bool
pair_matches s request p =
    (p.host == s && (is_empty request || eq p.host_request request))
    || (p.client == s && (is_empty request || eq p.client_request request))

abbrev cancel_found_offer : Socket → Text → Bytes → Option Offer → Relay → Relay
cancel_found_offer s request hash none st = st
cancel_found_offer s request hash (some o) st =
    if offer_matches s request o
    then pairing s o.request (text "cancelled") end (without_offer hash st)
    else st

unfoldable pub cancel_offer : Socket → Text → Bytes → Relay → Relay
cancel_offer s request hash st = cancel_found_offer s request hash (Dict.find hash st.offers) st

abbrev cancel_found_pair : Socket → Text → Text → ℕ → Option Pair → Relay → Relay
cancel_found_pair s request id now none st = st
cancel_found_pair s request id now (some p) st =
    if pair_matches s request p then finish_pair id (text "cancelled") now st else st

unfoldable pub cancel_pair : Socket → Text → ℕ → Text → Relay → Relay
cancel_pair s request now id st = cancel_found_pair s request id now (Dict.find id st.pairs) st

-- Private::cancelPairing; an empty request cancels all of the socket's.
unfoldable pub cancel_pairing : Socket → Text → ℕ → Relay → Relay
cancel_pairing s request now st =
    let without = each (cancel_offer s request) (Dict.keys st.offers) st in
    each (cancel_pair s request now) (Dict.keys without.pairs) without

abbrev pub is_target : Option Socket → Socket → Bool
is_target none s = false
is_target (some h) s = h == s

abbrev confirm_found : Socket → Text → ℕ → Option Pair → Relay → Relay
confirm_found s key now none st = st
confirm_found s key now (some p) st =
    if not (p.client == s)
    then st
    else if leb p.expires now
        || not (active st now p.host)
        || not (active st now p.client)
        || not (is_target (target st now s (session_of st now p.host).id) p.host)
    then finish_pair key (text "expired") now st
    else finish_pair key (text "paired") now st

-- The `pair-confirm` branch of `pairMessage`
unfoldable pub pair_confirm : Socket → Object → ℕ → Relay → Relay
pair_confirm s m now st =
    let key = member (text "pairingId") m in confirm_found s key now (Dict.find key st.pairs) st

-- The window of thirty seconds, with the attempt at hand counted.
unfoldable pub count_attempt : ℕ → Session → Session
count_attempt now c =
    let started = record c { pairing_window = some now; pairing_attempts = 1 } in
    elim c.pairing_window [
      | none ↦ started
      | some window ↦
          if leb (window + 30000) now
          then started
          else record c { pairing_attempts = c.pairing_attempts + 1 }
    ]

abbrev pub pairing_error : Socket → Text → String → Relay → Relay
pairing_error s id code st =
    pairing s id (text "error") (object ((text "error", str (text code)) ∷ [])) st

abbrev offer_or : Option Offer → Offer
offer_or none = record { host = 0; request = []; expires = 0 }
offer_or (some o) = o

module _ (services : Services) where
  open services use {hash, number}

  -- The `pair-offer` branch; `code` is the hexadecimal text of 32 random bytes.
  unfoldable pub pair_offer : Socket → Text → ℕ → Text → Relay → Relay
  pair_offer s id now code st =
      let caller = session_of st now s in
      if is_null_object caller.descriptor
      then pairing_error s id "host_required" st
      else let cleared = cancel_pairing s [] now st in
        let expires = min (now + 60000) caller.principal.expires_at in
        let offer : Offer = record { host = s; request = id; expires = expires } in
        pairing s id (text "offered")
          (object (
            (text "code", str code)
            ∷ (text "peerId", str caller.id)
            ∷ (text "name", str caller.name)
            ∷ (text "expires", str (number expires))
            ∷ []))
          (record cleared {
            tables = record cleared.tables {
              offers = Dict.insert (hash code) offer cleared.offers;
            };
          })

  -- The tests of `pair-claim` on an offer that was found.
  unfoldable pub may_claim : Socket → Object → ℕ → Offer → Relay → Bool
  may_claim s m now offer st =
      length (member (text "code") m) == 64
      && ltb now offer.expires
      && exists_object st offer.host
      && active st now offer.host
      && is_null_object (session_of st now s).descriptor
      && eq (session_of st now offer.host).id (member (text "host") m)
      && is_target (target st now s (member (text "host") m)) offer.host

  unfoldable pub claimed_details : Text → ℕ → Session → Object
  claimed_details key expires peer = object (
      (text "pairingId", str key)
      ∷ (text "peerId", str peer.id)
      ∷ (text "name", str peer.name)
      ∷ (text "expires", str (number expires))
      ∷ [])

  -- The end of `pair-claim`: the offer is consumed before anyone hears of it.
  unfoldable pub claim : Socket → Text → ℕ → Text → Bytes → Offer → Relay → Relay
  claim s id now key hashed offer st =
      let cleared = without_offer hashed (cancel_pairing s [] now st) in
      let expires = min (now + 15000) offer.expires in
      let pair : Pair = record {
        host = offer.host;
        client = s;
        host_request = offer.request;
        client_request = id;
        expires = expires;
      } in
      let paired = record cleared {
        tables = record cleared.tables { pairs = Dict.insert key pair cleared.pairs };
      } in
      pairing s id (text "claimed") (claimed_details key expires (session_of st now offer.host)) (
        pairing offer.host offer.request (text "claimed")
          (claimed_details key expires (session_of st now s)) paired)

  abbrev claim_found : Socket → Text → Object → ℕ → Text → Bytes → Option Offer → Relay → Relay
  claim_found s id m now key hashed none st = pairing_error s id "pairing_invalid_or_expired" st
  claim_found s id m now key hashed (some offer) st =
      if may_claim s m now offer st
      then claim s id now key hashed offer st
      else pairing_error s id "pairing_invalid_or_expired" st

  -- The `pair-claim` branch; `key` is a new UUID.
  unfoldable pub pair_claim : Socket → Text → Object → ℕ → Text → Relay → Relay
  pair_claim s id m now key st =
      let hashed = hash (to_latin1 (member (text "code") m)) in
      claim_found s id m now key hashed (Dict.find hashed st.offers) st

  -- The branches behind the rate limit.
  unfoldable pub limited : Socket → Text → Text → Object → ℕ → Text → Relay → Relay
  limited s type id m now fresh st =
      if ltb 6 (session_of st now s).pairing_attempts
      then pairing_error s id "pairing_rate_limited" st
      else if eq type (text "pair-offer")
      then pair_offer s id now fresh st
      else if eq type (text "pair-claim")
      then pair_claim s id m now fresh st
      else close_plain s st

  -- Private::pairMessage, for a type that starts with "pair-"
  unfoldable pub pair_message : Socket → Object → ℕ → Text → Relay → Relay
  pair_message s m now fresh st =
      let type = member (text "type") m in
      let id = member (text "id") m in
      if eq type (text "pair-confirm")
      then pair_confirm s m now st
      else if not (identifier id)
      then close_plain s st
      else if eq type (text "pair-cancel")
      then cancel_pairing s id now st
      else limited s type id m now fresh
          (set_session s (count_attempt now (session_of st now s)) st)

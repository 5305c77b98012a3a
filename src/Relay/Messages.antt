-- ===== src/Relay/Messages.antt =====
-- The directory, registration, tickets, routes, and `message` with its branches.
use ii_server_host.Prelude.{
  ltb, leb, ◌==◌, if◌then◌else◌, is_some, length, all, ℕ, suc, ◌+◌, min, Bool, true, false, ◌&&◌,
  ◌||◌, not, Option, none, some, List, [], ◌∷◌, ◌++◌,
}
use ii_server_host.Prelude.Text.{Text, text, eq, is_empty, starts_with, is_lower_hex}
use ii_server_host.Prelude.Dict.{nat_eq, text_eq, Dict}
use ii_server_host.Prelude.Dict
use ii_server_host.Json.{
  Json, str, obj, Object, end, is_object, to_str, to_bool, to_object, to_array, array, value,
  object, is_null_object,
}
use ii_server_host.Protocol.{error, identifier, Url, endpoint}
use ii_server_host.Relay.State.{
  Services, Socket, Session, Route, closes, asks, Relay, session_of, exists_object, emit, send_to,
  close_plain, set_session, active, is_peer_host, target, each, member,
}
use ii_server_host.Relay.Pairing.{cancel_pairing, pair_message}

unfoldable pub peers_of : ℕ → Socket → Session → Dict Socket Session → List Json
peers_of now s caller [] = []
peers_of now s caller ((t, session) ∷ rest) =
    let others = peers_of now s caller rest in
    if is_peer_host s caller now t session then obj session.descriptor ∷ others else others

-- Private::directory
unfoldable pub directory : ℕ → Socket → Relay → Relay
directory now s st =
    let caller = session_of st now s in
    if not (active st now s) || is_empty caller.id
    then st
    else send_to s
        (object (
          (text "type", str (text "peers"))
          ∷ (text "peers", array (peers_of now s caller st.sessions))
          ∷ []))
        st

-- Private::changed
unfoldable pub changed : ℕ → Relay → Relay
changed now st = each (directory now) (Dict.keys st.sessions) st

-- The test for another session of the same account under the same identity.
unfoldable pub is_duplicate : Socket → Session → Text → Text → Socket → Session → Bool
is_duplicate s caller id service t session =
    not (t == s)
    && eq session.principal.account_id caller.principal.account_id
    && eq session.id id
    && eq session.service service

unfoldable pub has_duplicate : Socket → Session → Text → Text → Dict Socket Session → Bool
has_duplicate s caller id service [] = false
has_duplicate s caller id service ((t, session) ∷ rest) =
    is_duplicate s caller id service t session || has_duplicate s caller id service rest

-- A session that has an identity keeps it.
unfoldable pub changes_identity : Session → Text → Text → Bool
changes_identity state id service =
    (not (is_empty state.id) && not (eq state.id id))
    || (not (is_empty state.service) && not (eq state.service service))

unfoldable pub is_fingerprint : Text → Bool
unfolding is_lower_hex
is_fingerprint s = length s == 64 && all is_lower_hex s

unfoldable pub is_host_flag : Object → Bool
unfolding to_bool
is_host_flag m = to_bool (value (text "host") m)

unfoldable pub count_routes : Socket → Dict Text Route → ℕ
count_routes s [] = 0
count_routes s ((k, r) ∷ rest) =
    let others = count_routes s rest in if r.client == s then suc others else others

unfoldable pub response : Text → Json → Object
response id result =
    object
      ((text "type", str (text "response")) ∷ (text "id", str id) ∷ (text "result", result) ∷ [])

abbrev host_found : {A : Type 0} → Option Socket → A → (Socket → A) → A
host_found none absent present = absent
host_found (some host) absent present = present host

abbrev respond_found : Socket → Object → ℕ → Text → Option Route → Relay → Relay
respond_found s m now key none st = st
respond_found s m now key (some r) st =
    let taken = record st { tables = record st.tables { routes = Dict.remove key st.routes } } in
    if not (r.host == s)
    then st
    else if exists_object st r.client && active st now r.client
    then send_to r.client (response r.id (value (text "result") m)) taken
    else taken

-- The `response` branch
unfoldable pub respond : Socket → Object → ℕ → Relay → Relay
respond s m now st =
    let key = member (text "id") m in respond_found s m now key (Dict.find key st.routes) st

module _ (services : Services) where
  open services use {hash, to_utf8, number, json_size, parse_url, parse_address, has_authenticator}

  -- The URLs of a host that the directory passes on: sixteen at most, with literal addresses.
  unfoldable pub accepts_url : Text → Url → Bool
  accepts_url fingerprint url =
      endpoint parse_address url (text "wss") (text "ws")
      && is_some (parse_address url.host)
      && (eq url.scheme (text "ws") || is_fingerprint fingerprint)

  unfoldable pub local_urls : Text → List Json → List Json → List Json
  unfolding to_str
  local_urls fingerprint [] kept = kept
  local_urls fingerprint (v ∷ vs) kept =
      let url = parse_url (to_str v) in
      local_urls fingerprint vs (
        if ltb (length kept) 16 && accepts_url fingerprint url
        then kept ++ str url.string ∷ []
        else kept)

  unfoldable pub descriptor_of : Object → Text → Text → Object
  descriptor_of m id service =
      let fingerprint = member (text "fingerprint") m in
      let urls = local_urls fingerprint (to_array (value (text "localUrls") m)) [] in
      if is_host_flag m
      then object (
          (text "peerId", str id)
          ∷ (text "name", value (text "name") m)
          ∷ (text "service", str service)
          ∷ (text "metadata", value (text "metadata") m)
          ∷ (text "localUrls", array urls)
          ∷ (text "fingerprint", str fingerprint)
          ∷ [])
      else end

  -- The end of the `register` branch, once the checks have passed.
  unfoldable pub registered : Socket → Object → ℕ → Relay → Relay
  registered s m now st =
      let state = session_of st now s in
      let id = member (text "peerId") m in
      let service = member (text "service") m in
      let descriptor = descriptor_of m id service in
      let stored =
        set_session s
          (record state {
            id = id;
            service = service;
            name = member (text "name") m;
            descriptor = descriptor;
          })
          st in
      let cancelled =
        if not (is_null_object state.descriptor) && is_null_object descriptor
        then cancel_pairing s [] now stored
        else stored in
      changed now (send_to s (object ((text "type", str (text "registered")) ∷ [])) cancelled)

  unfoldable pub register : Socket → Object → ℕ → Relay → Relay
  register s m now st =
      let state = session_of st now s in
      let id = member (text "peerId") m in
      let service = member (text "service") m in
      if not (identifier id)
        || not (identifier service)
        || ltb 128 (length (member (text "name") m))
        || ltb 8192 (json_size (to_object (value (text "metadata") m)))
      then close_plain s st
      else if has_duplicate s state id service st.sessions
      then close_plain s (
          send_to s
            (object (
              (text "type", str (text "error")) ∷ (text "error", str (text "duplicate_peer")) ∷ []))
            st)
      else if changes_identity state id service
      then close_plain s st
      else registered s m now st

  -- The `auth` branch. The answer comes back by `authenticated`.
  unfoldable pub auth : Socket → Object → Relay → Session → Relay
  auth s m st session =
      let credential = to_utf8 (member (text "credential") m) in
      if session.authenticating
        || is_empty credential
        || ltb 16384 (length credential)
        || not has_authenticator
      then close_plain s st
      else emit (asks s credential) (set_session s (record session { authenticating = true }) st)

  -- The `connect` branch; `ticket` is the hexadecimal text of 32 random bytes.
  unfoldable pub connect : Socket → Object → ℕ → Text → Relay → Relay
  connect s m now ticket st =
      let id = member (text "peerId") m in
      host_found (target st now s id)
        (send_to s
          (object (
            (text "type", str (text "connect"))
            ∷ (text "peerId", str id)
            ∷ (text "error", str (text "host_unavailable"))
            ∷ []))
          st)
        λ host.
          let caller = session_of st now s in
          let peer = session_of st now host in
          let expiry = number (min caller.principal.expires_at peer.principal.expires_at) in
          send_to s
            (object (
              (text "type", str (text "connect"))
              ∷ (text "peerId", str id)
              ∷ (text "ticket", str ticket)
              ∷ (text "descriptor", obj peer.descriptor)
              ∷ (text "expires", str expiry)
              ∷ []))
            (send_to host
              (object (
                (text "type", str (text "ticket"))
                ∷ (text "ticket", str ticket)
                ∷ (text "peerId", str caller.id)
                ∷ (text "expires", str expiry)
                ∷ []))
              st)

  -- The `request` branch, behind the checks of the message; `route` is a new UUID.
  unfoldable pub open_route : Socket → Object → ℕ → Text → Relay → Relay
  open_route s m now route st =
      let id = member (text "id") m in
      let full = leb 32 (count_routes s st.routes) || leb 1024 (length st.routes) in
      host_found (target st now s (member (text "peerId") m))
        (send_to s (response id (obj (error (text "host_unavailable")))) st)
        λ host.
          if full
          then send_to s (response id (obj (error (text "busy")))) st
          else send_to host
              (object (
                (text "type", str (text "request"))
                ∷ (text "id", str route)
                ∷ (text "peerId", str (session_of st now s).id)
                ∷ (text "payload", value (text "payload") m)
                ∷ []))
              (record st {
                tables = record st.tables {
                  routes =
                      Dict.insert route
                        (record { client = s; host = host; id = id; expires = now + 15000 })
                        st.routes;
                };
              })

  unfoldable pub request : Socket → Object → ℕ → Text → Relay → Relay
  request s m now route st =
      if not (identifier (member (text "id") m)) || not (is_object (value (text "payload") m))
      then close_plain s st
      else open_route s m now route st

  -- What an identified session may send.
  unfoldable pub identified : Socket → Object → ℕ → Text → Relay → Relay
  identified s m now fresh st =
      let type = member (text "type") m in
      if starts_with type (text "pair-")
      then pair_message services s m now fresh st
      else if eq type (text "list")
      then directory now s st
      else if eq type (text "connect")
      then connect s m now fresh st
      else if eq type (text "request")
      then request s m now fresh st
      else if eq type (text "response")
      then respond s m now st
      else emit (closes s 1002 (text "Invalid message")) st

  unfoldable pub authorized : Socket → Object → ℕ → Text → Relay → Session → Relay
  authorized s m now fresh st session =
      let type = member (text "type") m in
      if eq type (text "auth")
      then auth s m st session
      else if not (active st now s)
      then emit (closes s 1008 (text "Authentication required")) st
      else if eq type (text "register")
      then register s m now st
      else if is_empty session.id
      then close_plain s st
      else identified s m now fresh st

  abbrev message_found : Socket → Object → ℕ → Text → Relay → Option Session → Relay
  message_found s m now fresh st none = st
  message_found s m now fresh st (some session) = authorized s m now fresh st session

  -- Private::message; `fresh` is the UUID or random code that a branch draws. In this turn no send
  -- or close ends its socket at once, which would run `remove` in the middle of it.
  unfoldable pub message : Socket → Object → ℕ → Text → Relay → Relay
  message s m now fresh st = message_found s m now fresh st (Dict.find s st.sessions)

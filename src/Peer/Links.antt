-- ===== src/Peer/Links.antt =====
-- src/Peer.cpp: the direct links, their making, their messages and their loss.
use ii_server_host.Peer.Loss.{request_on, lost}
use ii_server_host.Prelude.Dict
use ii_server_host.Prelude.{
  ltb, leb, ◌==◌, if◌then◌else◌, is_some, length, any, ℕ, zero, suc, ◌+◌, ◌-◌, ◌*◌, ◌%◌, ◌^◌, Bool,
  true, false, ◌&&◌, ◌||◌, not, Option, none, some, List, [], ◌∷◌,
}
use ii_server_host.Prelude.Text.{Text, Bytes, text, eq}
use ii_server_host.Json.{bool, str, obj, Object, is_object, to_bool, to_object, value, object}
use ii_server_host.Protocol.{error, identifier, Address, Url, loopback, pin_certificate, is_over}
use ii_server_host.Prelude.Dict.{nat_eq, text_eq, Dict}
use ii_server_host.Prelude.Int.{ℤ}
use ii_server_host.Peer.State.{
  Socket, Ticket, Link, Attempt, sends, closes, aborts, opens, calls, Peer, emit, member,
  listed_text, finish,
}
use ii_server_host.Peer.Requests.{Sending, remote, local}

-- An entry of `ii::network::interfaces()`, its address parsed.
pub record Interface : Type 0 where
  pub own : Option Address
  pub address : Text
  pub ipv4 : Bool
  pub is_loopback : Bool
  pub prefix_length : ℕ

-- What Qt and iiNetwork answer.
pub record Net : Type 0 where
  pub parse_address : Text → Option Address
  pub parse_url : Text → Url
  pub write_url : Text → Text → ℕ → Text  -- scheme, host and port
  pub interfaces : List Interface
  pub subnet_contains : Address → ℕ → Address → Bool
  pub read_ms : Text → ℤ  -- toLongLong()
  pub from_utf8 : Bytes → Text
  pub from_hex : Bytes → Bytes
  pub to_hex : Bytes → Bytes

abbrev byte : ℕ → List ℕ → ℕ
byte zero [] = 0
byte (suc i) [] = 0
byte zero (b ∷ bs) = b
byte (suc i) (b ∷ bs) = byte i bs

-- The 32-bit number of an IPv4 address
unfoldable pub host_number : List ℕ → ℕ
host_number bs = byte 0 bs * 2 ^ 24 + byte 1 bs * 2 ^ 16 + byte 2 bs * 2 ^ 8 + byte 3 bs

-- Are all the bits below the prefix set? `(host & mask) == mask`, the mask being one less than a
-- power of two.
unfoldable pub is_broadcast : Address → ℕ → Bool
is_broadcast address prefix =
    address.ipv4
    && ltb prefix 32
    && host_number address.bytes % 2 ^ (32 - prefix) == 2 ^ (32 - prefix) - 1

abbrev in_subnet : Net → Interface → Address → Option Address → Bool
in_subnet net entry address none = false
in_subnet net entry address (some own) =
    not (entry.prefix_length == 0)
    && net.subnet_contains own entry.prefix_length address
    && not (is_broadcast address entry.prefix_length)

abbrev is_near : Net → Url → Option Address → Bool
is_near net relay_url none = false
is_near net relay_url (some address) =
    if address.is_multicast || address.is_unspecified || eq address.string (text "255.255.255.255")
    then false
    else if address.is_loopback
    then loopback net.parse_address relay_url.host
    else any (λ entry. in_subnet net entry address entry.own) net.interfaces

-- Private::onLink
unfoldable pub on_link : Net → Url → Url → Bool
on_link net relay_url url = is_near net relay_url (net.parse_address url.host)

abbrev no_attempt : Attempt
no_attempt = record { urls = []; ticket = []; fingerprint = []; expires = none }

abbrev pub or_none : Option Attempt → Attempt
or_none none = no_attempt
or_none (some a) = a

abbrev pub try_url : Net → Text → Attempt → Socket → (Text → Sending) → ℕ → List Text → Peer → Peer
try_url net peer a s sent now [] st = remote peer sent st
try_url net peer a s sent now (url ∷ urls) st =
    let made = record st {
      attempts = Dict.insert peer (record a { urls = urls }) st.attempts;
      links =
          Dict.insert s
            (record {
              peer = peer;
              ticket = a.ticket;
              fingerprint = a.fingerprint;
              expires = a.expires;
              deadline = now + st.options.local_timeout_ms;
              outgoing = true;
              authenticated = false;
            })
            st.links;
      outbound = Dict.insert peer s st.outbound;
    } in
    if eq (net.parse_url url).scheme (text "wss")
      && not (is_some (pin_certificate net.from_hex net.to_hex a.fingerprint))
    then lost s made
    else emit (opens s url) made

-- Private::nextLocal, with the number of the socket that it may make
unfoldable pub next_local : Net → Text → Socket → (Text → Sending) → ℕ → Peer → Peer
next_local net peer s sent now st =
    let a = or_none (Dict.find peer st.attempts) in
    if not st.running || not st.ready || not (listed_text peer st.connecting)
    then st
    else if is_over a.expires now
    then remote peer sent st
    else try_url net peer a s sent now a.urls st

abbrev pub hello : Net → Socket → Text → Text → Peer → Option Link → Peer
hello net s scheme fingerprint st none = st
hello net s scheme fingerprint st (some l) =
    if eq scheme (text "wss") && not (eq fingerprint l.fingerprint)
    then emit (aborts s) st
    else emit
        (sends s (object ((text "type", str (text "hello")) ∷ (text "ticket", str l.ticket) ∷ [])))
        st

-- A link out is connected, to an URL of this scheme; its peer showed this certificate.
unfoldable pub link_connected : Net → Socket → Text → Text → Peer → Peer
link_connected net s scheme fingerprint st =
    hello net s scheme fingerprint st (Dict.find s st.links)

-- What the handler has answered, `none` for an exception
abbrev handled : Option Object → Object
handled none = error (text "host_error")
handled (some result) = result

unfoldable pub may_handle : Peer → Bool
may_handle st = st.ready && st.options.host_files && st.has_handler

-- The answer of Private::handle
unfoldable pub handle : Option Object → Peer → Object
handle answer st = if may_handle st then handled answer else error (text "not_hosting")

-- The run of the handler that Private::handle makes
unfoldable pub ran : Text → Object → Peer → Peer
ran peer payload st = if may_handle st then emit (calls peer payload) st else st

abbrev pub takes : ℕ → Option Ticket → Bool
takes now none = false
takes now (some t) = not (is_over t.expires now)

abbrev pub ticket_or : Option Ticket → Ticket
ticket_or none = record { peer = []; expires = none }
ticket_or (some t) = t

-- The link is let in with the ticket, which is used up.
unfoldable pub admit : Socket → Link → Text → Ticket → Peer → Peer
admit s l ticket t st =
    let entered = record l { peer = t.peer; expires = t.expires; authenticated = true } in
    emit (sends s (object ((text "type", str (text "hello")) ∷ (text "ok", bool true) ∷ [])))
      (record st {
        tickets = Dict.remove ticket st.tickets;
        links = Dict.insert s entered st.links;
      })

-- A message on a link that is not yet authenticated
unfoldable pub greet : Socket → Link → Object → (Text → Sending) → ℕ → Peer → Peer
greet s l m sent now st =
    let type = member (text "type") m in
    let ticket = member (text "ticket") m in
    let found = Dict.find ticket st.tickets in
    if l.outgoing && eq type (text "hello") && to_bool (value (text "ok") m)
    then local s sent
        (record st { links = Dict.insert s (record l { authenticated = true }) st.links })
    else if not l.outgoing && eq type (text "hello") && st.ready && takes now found
    then admit s l ticket (ticket_or found) st
    else emit (closes s 1008 (text "Ticket required")) st

-- A message on an authenticated link
unfoldable pub serve_link : Socket → Link → Object → Option Object → ℕ → Peer → Peer
serve_link s l m answer now st =
    let type = member (text "type") m in
    let id = member (text "id") m in
    let payload = to_object (value (text "payload") m) in
    if not st.ready || is_over l.expires now
    then emit (closes s 1000 []) st
    else if eq type (text "request")
        && not l.outgoing
        && identifier id
        && is_object (value (text "payload") m)
    then emit
        (sends s (
          object (
            (text "type", str (text "response"))
            ∷ (text "id", value (text "id") m)
            ∷ (text "result", obj (handle answer st))
            ∷ [])))
        (ran l.peer payload st)
    else if eq type (text "response") && l.outgoing && request_on s (Dict.find id st.requests)
    then finish id (to_object (value (text "result") m)) st
    else emit (closes s 1002 (text "Invalid local message")) st

abbrev link_found :
    Socket → Object → Option Object → (Text → Sending) → ℕ → Peer → Option Link → Peer
link_found s m answer sent now st none = st
link_found s m answer sent now st (some l) =
    if l.authenticated then serve_link s l m answer now st else greet s l m sent now st

-- The handler of textMessageReceived in Private::attach
unfoldable pub link_message : Socket → Object → Option Object → (Text → Sending) → ℕ → Peer → Peer
link_message s m answer sent now st = link_found s m answer sent now st (Dict.find s st.links)

unfoldable pub blank_link : ℕ → Link
blank_link now = record {
  peer = [];
  ticket = [];
  fingerprint = [];
  expires = none;
  deadline = now + 5000;
  outgoing = false;
  authenticated = false;
}

-- A connection that the server of `start` hands over
unfoldable pub accept : Socket → ℕ → Peer → Peer
accept s now st =
    if leb 64 (length st.links)
    then emit (closes s 1000 []) st
    else record st { links = Dict.insert s (blank_link now) st.links }

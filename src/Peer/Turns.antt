-- ===== src/Peer/Turns.antt =====
-- src/Peer.cpp: the events that the owner, the relay, the links and the timers bring. The numbers of
-- new sockets, the new identities and the answers of others come with the event.
use ii_server_host.Peer.Loss.{lost, relay_error, relay_disconnected}
use ii_server_host.Prelude.{ℕ, ◌≡◌, Bool, true, false, Option}
use ii_server_host.Prelude.Text.{Text, text, eq}
use ii_server_host.Json.{Object, size}
use ii_server_host.Protocol.{listener_error}
use ii_server_host.Peer.State.{Socket, PeerOptions, Peer}
use ii_server_host.Peer.Requests.{Sending, delivered, refused, broken, start_request, request}
use ii_server_host.Peer.Links.{Net, next_local, link_connected, link_message, accept}
use ii_server_host.Peer.Messages.{authenticate, message}
use ii_server_host.Peer.Events.{
  sweep, open_relay, relay_connected, stop, start, deliver_completion, refresh_peers,
  create_pairing_offer, claim_pairing_offer, confirm_pairing, cancel_pairing,
}

pub data Event : Type 0 where
  starts : PeerOptions → Bool → Option ℕ → Text → Bool → Event
  stops : Bool → Event
  relay_connects : Option Text → Event
  relay_disconnects reopens authenticates refreshes : Event
  relay_errors : Text → Event
  receives : Object → Option Object → Socket → (Text → Sending) → Event
  accepts : Socket → Event
  link_connects : Socket → Text → Text → Event
  link_receives : Socket → Object → Option Object → (Text → Sending) → Event
  link_loses : Socket → Event
  tries : Text → Socket → (Text → Sending) → Event
  begins : Text → (Text → Sending) → Event
  requests : Text → Text → Object → ℕ → Event
  delivers : Text → Object → Event
  offers_pairing confirms_pairing cancels_pairing : Text → Event
  claims_pairing : Text → Text → Text → Event
  ticks : Event

module _ (net : Net) where
  unfoldable pub step : ℕ → Event → Peer → Peer
  step now (starts o has_handler port listener_error relay_open) st =
      (start net o has_handler port listener_error relay_open st).1
  step now (stops relay_open) st = stop relay_open st
  step now (relay_connects breaks) st = relay_connected net breaks st
  step now relay_disconnects st = relay_disconnected st
  step now reopens st = open_relay st
  step now authenticates st = authenticate net st
  step now refreshes st = refresh_peers st
  step now (relay_errors text) st = relay_error text st
  step now (receives m answer s sent) st = message net m answer s sent now st
  step now (accepts s) st = accept s now st
  step now (link_connects s scheme fingerprint) st = link_connected net s scheme fingerprint st
  step now (link_receives s m answer sent) st = link_message s m answer sent now st
  step now (link_loses s) st = lost s st
  step now (tries peer s sent) st = next_local net peer s sent now st
  step now (begins id sent) st = start_request id sent now st
  step now (requests id peer payload size) st = request id peer payload size now st
  step now (delivers id result) st = deliver_completion id result st
  step now (offers_pairing id) st = create_pairing_offer id st
  step now (claims_pairing id code host) st = claim_pairing_offer id code host st
  step now (confirms_pairing id) st = confirm_pairing id st
  step now (cancels_pairing id) st = cancel_pairing id st
  step now ticks st = sweep now st

-- Is this the event that asks for the request, or that ends a refused one?
unfoldable pub is_about : Text → Event → Bool
is_about id (requests j peer payload size) = eq j id
is_about id (delivers j result) = eq j id
is_about id _ = false

-- The send has not broken its socket.
abbrev pub holds : Sending → Bool
holds delivered = true
holds refused = true
holds (broken message answer) = false

-- Does each send of a request in this event leave its socket open?
abbrev pub IsSteady : Event → Type 0
IsSteady (receives m answer s sent) = (id : Text) → holds (sent id) ≡ true
IsSteady (link_receives s m answer sent) = (id : Text) → holds (sent id) ≡ true
IsSteady (tries peer s sent) = (id : Text) → holds (sent id) ≡ true
IsSteady (begins id sent) = (j : Text) → holds (sent j) ≡ true
IsSteady _ = Unit

-- The states that follow by events that fulfil the condition, without the identity being drawn
-- again
pub data Later (net : Net) (id : Text) (Allows : Event → Type 0) (st : Peer) : Peer → Type 0 where
  now_there : Later net id Allows st st
  goes_on :
      {u : Peer}
      → Later net id Allows st u
      → (now : ℕ) (e : Event) → is_about id e ≡ false
      → Allows e
      → Later net id Allows st (step net now e u)

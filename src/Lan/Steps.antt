-- ===== src/Lan/Steps.antt =====
-- src/LanPeer.cpp: the events that the owner, the sockets and the timer bring, and the histories of
-- them. The random texts, the new socket's number and the answers of others come with the event.
use ii_server_host.Lan.Offers.{
  accept, host_disconnected, cancel_pairing, create_offer, create_device_offer, confirm_device,
}
use ii_server_host.Prelude.Dict
use ii_server_host.Prelude.{is_some, ℕ, ◌≡◌, Bool, true, ◌&&◌, not, Option, List}
use ii_server_host.Prelude.Text.{Text, Bytes}
use ii_server_host.Json.{Object, size}
use ii_server_host.Prelude.Dict.{nat_eq, text_eq, Dict}
use ii_server_host.Lan.Link.{Links, Digests}
use ii_server_host.Lan.State.{Socket, Lan, fresh}
use ii_server_host.Lan.Host.{host_message, host_frame}
use ii_server_host.Lan.Client.{
  client_message, client_frame, client_disconnected, client_connected, client_error, request,
  post_request,
}
use ii_server_host.Lan.Events.{stop, set_pairing_authentication, HostSetup, start_host, sweep, join}

pub data Event : Type 0 where
  starts_host : HostSetup → Text → Text → Bool → List Text → Event
  offers : ℕ → Text → Event
  offers_device : Text → ℕ → Text → Event
  confirms_device : Option Object → Event
  joins : Text → Text → Text → Socket → Event
  authenticates : Option (Bytes → Object) → Option (Bytes → Object → Bool) → Event
  cancels stops : Event
  requests : Text → Text → Object → ℕ → Event
  posts : Text → Object → Bool → Event
  accepts : Socket → Text → Event
  receives receives_frame : Socket → Object → Option Object → Event
  disconnects : Socket → Event
  connects : Text → Text → Event
  client_receives client_receives_frame : Object → Event
  client_errors : Text → Socket → Event
  client_disconnects : Event
  ticks : Socket → Event

-- What the transport and the identities keep to: a socket is accepted by a server and under a new
-- number, the client's socket signals while it is there, its connection at most once and first.
unfoldable pub is_allowed : Event → Lan → Bool
is_allowed (accepts s address) st = st.server && not (Dict.contains s st.clients)
is_allowed (connects fingerprint nonce) st = is_some st.client && not st.hello_sent
is_allowed (client_receives m) st = is_some st.client && st.hello_sent
is_allowed (client_receives_frame m) st = is_some st.client && st.hello_sent
is_allowed (client_errors message s) st = is_some st.client
is_allowed client_disconnects st = is_some st.client
is_allowed (requests id host payload size) st = not (Dict.contains id st.requests)
is_allowed _ st = true

module _ (links : Links) (digests : Digests) where
  unfoldable pub step : ℕ → Event → Lan → Lan
  step now (starts_host setup id name has_handler addresses) st =
      (start_host links setup id name has_handler addresses st).1
  step now (offers lifetime code) st = (create_offer links lifetime code now st).1
  step now (offers_device peer lifetime code) st =
      (create_device_offer links peer lifetime code now st).1
  step now (confirms_device answer) st = (confirm_device now answer st).1
  step now (joins qr peer name s) st = (join digests links qr peer name s now st).1
  step now (authenticates signer verifier) st = set_pairing_authentication signer verifier st
  step now cancels st = cancel_pairing st
  step now stops st = stop st
  step now (requests id host payload size) st = request id host payload size now st
  step now (posts id payload sent) st = post_request id payload sent st
  step now (accepts s address) st = accept links s address now st
  step now (receives s m answer) st = host_message digests s m now answer st
  step now (receives_frame s m answer) st = host_frame digests s m now answer st
  step now (disconnects s) st = host_disconnected s st
  step now (connects fingerprint nonce) st = client_connected digests fingerprint nonce st
  step now (client_receives m) st = client_message m now st
  step now (client_receives_frame m) st = client_frame m now st
  step now (client_errors message s) st = client_error digests message s now st
  step now client_disconnects st = client_disconnected st
  step now (ticks s) st = sweep digests now s st

  -- The states that a peer gets into
  pub data Reached : Lan → Type 0 where
    starts : Reached fresh
    goes :
        {st : Lan}
        → Reached st
        → (now : ℕ) (e : Event) → is_allowed e st ≡ true
        → Reached (step now e st)

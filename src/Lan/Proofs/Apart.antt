-- ===== src/Lan/Proofs/Apart.antt =====
-- src/LanPeer.cpp: the operations of the joining side leave the host's sessions as they are.
use ii_server_host.Prelude.{ℕ, ◌≡◌, refl, Bool, true, arith}
use ii_server_host.Prelude.Text.{Text, text}
use ii_server_host.Json.{Object, size}
use ii_server_host.Lan.Link.{Digests}
use ii_server_host.Lan.State.{Socket, Lan, emit, emit_all, drop_client, complete_all}
use ii_server_host.Lan.Client.{
  fail, ready, joined, responded, checked_message, client_message, client_frame, open_address,
  client_connected, client_error, request, post_request,
}

pub clients-fail : (message : Text) (st : Lan) → (fail message st).clients ≡ st.clients
unfolding fail complete_all drop_client emit emit_all
clients-fail message st = refl

clients-ready : (m : Object) (st : Lan) → (ready m st).clients ≡ st.clients
unfolding ready fail complete_all drop_client emit emit_all
clients-ready m st = ground arith

clients-checked_message :
    (m : Object) (now : ℕ) (st : Lan) → (checked_message m now st).clients ≡ st.clients
unfolding checked_message joined responded fail complete_all drop_client emit emit_all
clients-checked_message m now st = ground (arith, clients-ready m st)

pub clients-client_message :
    (m : Object) (now : ℕ) (st : Lan) → (client_message m now st).clients ≡ st.clients
unfolding client_message fail complete_all drop_client emit emit_all
clients-client_message m now st =
    let proved : Lan = record st { authenticated = true } in
    ground (arith, clients-checked_message m now st, clients-checked_message m now proved)

pub clients-client_frame :
    (m : Object) (now : ℕ) (st : Lan) → (client_frame m now st).clients ≡ st.clients
unfolding client_frame fail complete_all drop_client emit emit_all
clients-client_frame m now st = ground (arith, clients-client_message m now st)

pub clients-request :
    (id host : Text) (payload : Object) (size now : ℕ) (st : Lan)
    → (request id host payload size now st).clients ≡ st.clients
unfolding request emit
clients-request id host payload size now st = ground arith

pub clients-post_request :
    (id : Text) (payload : Object) (sent : Bool) (st : Lan)
    → (post_request id payload sent st).clients ≡ st.clients
unfolding post_request fail complete_all drop_client emit emit_all
clients-post_request id payload sent st = ground arith

module _ (digests : Digests) where
  pub clients-open_address :
      (s : Socket) (now : ℕ) (st : Lan) → (open_address digests s now st).clients ≡ st.clients
  unfolding open_address fail complete_all drop_client emit emit_all
  clients-open_address s now st = ground arith

  pub clients-client_connected :
      (fingerprint nonce : Text) (st : Lan)
      → (client_connected digests fingerprint nonce st).clients ≡ st.clients
  unfolding client_connected fail complete_all drop_client emit emit_all
  clients-client_connected fingerprint nonce st = ground arith

  pub clients-client_error :
      (message : Text) (s : Socket) (now : ℕ) (st : Lan)
      → (client_error digests message s now st).clients ≡ st.clients
  unfolding client_error
  clients-client_error message s now st =
      let noted : Lan = record st { connection_error = message } in
      let m = text "The local connection failed. Scan a new QR code." in
      ground (arith, clients-open_address s now noted, clients-fail m noted)

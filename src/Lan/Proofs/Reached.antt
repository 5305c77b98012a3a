-- ===== src/Lan/Proofs/Reached.antt =====
-- src/LanPeer.cpp: every state that a peer gets into meets the invariant.
use ii_server_host.Prelude.Dict
use ii_server_host.Prelude.{
  ltb, leb, Option-cases, is_some, if_rule, length, ℕ, ◌-◌, ◌≡◌, refl, inl, inr, Bool, true, false,
  ◌&&◌, ◌||◌, not, Option, arith,
}
use ii_server_host.Prelude.Text.{Text, text, eq}
use ii_server_host.Json.{Object, size, is_null_object}
use ii_server_host.Protocol.{wire_limit}
use ii_server_host.Prelude.Dict.{nat_eq, text_eq, Dict}
use ii_server_host.Lan.Link.{Links, Digests, authentication_context}
use ii_server_host.Lan.State.{Socket, Lan, fresh, emit, signs, labelled, is_configured}
use ii_server_host.Lan.Host.{may_send_frames, host_message, host_frame}
use ii_server_host.Lan.Client.{
  client_message, client_frame, client_disconnected, client_connected, client_error, request,
  post_request,
}
use ii_server_host.Lan.Proofs.Sides.{side-host_message}
use ii_server_host.Lan.Proofs.Apart.{
  clients-client_message, clients-request, clients-client_connected,
}
use ii_server_host.Lan.Proofs.Hosting.{host_message-HasTable}
use ii_server_host.Lan.Proofs.Joining.{
  same-HasSide, unsaid, client_connected-HasSide, client_message-HasSide, request-HasSide,
}
use ii_server_host.Lan.Proofs.Offers.{
  HasOffer, kept-HasOffer, fail-HasOffer, client_message-HasOffer, host_message-HasOffer,
}
use ii_server_host.Lan.Steps.{
  Event, starts_host, offers, offers_device, confirms_device, joins, authenticates, cancels, stops,
  requests, posts, accepts, receives, receives_frame, disconnects, connects, client_receives,
  client_receives_frame, client_errors, client_disconnects, ticks, is_allowed, step, Reached,
  starts, goes,
}
use ii_server_host.Lan.Proofs.Sweeps.{
  IsSafe, same-HasTable, blank-IsSafe, same-IsSafe, fail-IsSafe, emit-IsSafe, open_address-IsSafe,
  sweep-IsSafe, stop-IsSafe, set_pairing_authentication-IsSafe, start_host-IsSafe, join-IsSafe,
}
use ii_server_host.Lan.Proofs.Hosted.{
  accept-IsSafe, host_disconnected-IsSafe, cancel_pairing-IsSafe, create_offer-IsSafe,
  create_device_offer-IsSafe, confirm_device-IsSafe,
}

module _ (links : Links) (digests : Digests) where
  host_message-IsSafe :
      (s : Socket) (m : Object) (now : ℕ) (answer : Option Object) (st : Lan)
      → IsSafe st
      → IsSafe (host_message digests s m now answer st)
  host_message-IsSafe s m now answer st h = record {
    host = host_message-HasTable digests s m now answer st h.host;
    client = same-HasSide h.client (side-host_message digests s m now answer st);
    offer = host_message-HasOffer digests s m now answer st h.offer;
  }

  host_frame-IsSafe :
      (s : Socket) (m : Object) (now : ℕ) (answer : Option Object) (st : Lan)
      → IsSafe st
      → IsSafe (host_frame digests s m now answer st)
  unfolding host_frame
  host_frame-IsSafe s m now answer st h =
      if_rule IsSafe (not (may_send_frames (Dict.find s st.clients))) (λ _. emit-IsSafe _ st h)
        (λ _. host_message-IsSafe s m now answer st h)

  client_message-IsSafe :
      (m : Object) (now : ℕ) (st : Lan)
      → st.hello_sent ≡ true
      → IsSafe st
      → IsSafe (client_message m now st)
  client_message-IsSafe m now st said h = record {
    host = same-HasTable h.host (clients-client_message m now st);
    client = client_message-HasSide m now st said h.client;
    offer = client_message-HasOffer m now st h.offer;
  }

  client_connected-HasOffer :
      (fingerprint nonce : Text) (st : Lan)
      → HasOffer st
      → HasOffer (client_connected digests fingerprint nonce st)
  unfolding client_connected emit
  client_connected-HasOffer fingerprint nonce st h =
      let context = authentication_context digests st.joining st.client_id nonce in
      let proof = signs st.signer (labelled (text "client") context) in
      if_rule HasOffer (not (eq fingerprint st.joining.fingerprint)) (λ _. fail-HasOffer _ st)
        λ _.
          if_rule HasOffer
            (is_configured st
              && (not (is_some st.signer) || not (is_some st.verifier) || is_null_object proof))
            (λ _. fail-HasOffer _ _)
            (λ _. elim (Option-cases st.client) [
              | inl e ↦ rw e (kept-HasOffer h refl refl)
              | inr (c, e) ↦ rw e (kept-HasOffer h refl refl)
            ])

  client_connected-IsSafe :
      (fingerprint nonce : Text) (st : Lan)
      → st.hello_sent ≡ false
      → IsSafe st
      → IsSafe (client_connected digests fingerprint nonce st)
  client_connected-IsSafe fingerprint nonce st fresh h = record {
    host = same-HasTable h.host (clients-client_connected digests fingerprint nonce st);
    client = client_connected-HasSide digests fingerprint nonce st fresh h.client;
    offer = client_connected-HasOffer fingerprint nonce st h.offer;
  }

  client_error-IsSafe :
      (message : Text) (s : Socket) (now : ℕ) (st : Lan)
      → IsSafe st
      → IsSafe (client_error digests message s now st)
  unfolding client_error
  client_error-IsSafe message s now st h =
      let noted : Lan = record st { connection_error = message } in
      let safe : IsSafe noted = same-IsSafe h refl refl refl refl in
      if_rule IsSafe (not st.hello_sent)
        (λ y. open_address-IsSafe digests s now noted (unsaid h.client (ground (arith, y))) safe)
        (λ _. fail-IsSafe _ noted safe.host)

  request-IsSafe :
      (id host : Text) (payload : Object) (size now : ℕ) (st : Lan)
      → IsSafe st
      → IsSafe (request id host payload size now st)
  unfolding request emit
  request-IsSafe id host payload size now st h = record {
    host = same-HasTable h.host (clients-request id host payload size now st);
    client = request-HasSide id host payload size now st h.client;
    offer =
        if_rule HasOffer
          (not st.client_paired
            || not (eq host st.joining.host_id)
            || leb 32 (length st.requests)
            || ltb (wire_limit - 1024) size)
          (λ _. kept-HasOffer h.offer refl refl) (λ _. kept-HasOffer h.offer refl refl);
  }

  post_request-IsSafe :
      (id : Text) (payload : Object) (sent : Bool) (st : Lan)
      → IsSafe st
      → IsSafe (post_request id payload sent st)
  unfolding post_request
  post_request-IsSafe id payload sent st h =
      if_rule IsSafe (not (Dict.contains id st.requests)) (λ _. h)
        λ _. elim (Option-cases st.client) [
          | inl e ↦ rw e (fail-IsSafe _ st h.host)
          | inr (c, e) ↦
              rw e (if_rule IsSafe sent (λ _. emit-IsSafe _ st h) (λ _. fail-IsSafe _ st h.host))
        ]

  step-IsSafe :
      (now : ℕ) (e : Event) (st : Lan)
      → is_allowed e st ≡ true
      → IsSafe st
      → IsSafe (step links digests now e st)
  unfolding step is_allowed client_frame client_disconnected
  step-IsSafe now (starts_host setup id name has_handler addresses) st ok h =
      start_host-IsSafe links setup id name has_handler addresses st
  step-IsSafe now (offers lifetime code) st ok h = create_offer-IsSafe links lifetime code now st h
  step-IsSafe now (offers_device peer lifetime code) st ok h =
      create_device_offer-IsSafe links peer lifetime code now st h
  step-IsSafe now (confirms_device answer) st ok h = confirm_device-IsSafe now answer st h
  step-IsSafe now (joins qr peer name s) st ok h = join-IsSafe digests links qr peer name s now st
  step-IsSafe now (authenticates signer verifier) st ok h =
      set_pairing_authentication-IsSafe signer verifier st
  step-IsSafe now cancels st ok h = cancel_pairing-IsSafe st h
  step-IsSafe now stops st ok h = stop-IsSafe st
  step-IsSafe now (requests id host payload size) st ok h =
      request-IsSafe id host payload size now st h
  step-IsSafe now (posts id payload sent) st ok h = post_request-IsSafe id payload sent st h
  step-IsSafe now (accepts s address) st ok h = accept-IsSafe links s address now st h
  step-IsSafe now (receives s m answer) st ok h = host_message-IsSafe s m now answer st h
  step-IsSafe now (receives_frame s m answer) st ok h = host_frame-IsSafe s m now answer st h
  step-IsSafe now (disconnects s) st ok h = host_disconnected-IsSafe s st h
  step-IsSafe now (connects fingerprint nonce) st ok h =
      client_connected-IsSafe fingerprint nonce st (ground (arith, ok)) h
  step-IsSafe now (client_receives m) st ok h =
      client_message-IsSafe m now st (ground (arith, ok)) h
  step-IsSafe now (client_receives_frame m) st ok h =
      if_rule IsSafe (not st.client_paired || not st.client_binary) (λ _. fail-IsSafe _ st h.host)
        (λ _. client_message-IsSafe m now st (ground (arith, ok)) h)
  step-IsSafe now (client_errors message s) st ok h = client_error-IsSafe message s now st h
  step-IsSafe now client_disconnects st ok h = fail-IsSafe _ st h.host
  step-IsSafe now (ticks s) st ok h = sweep-IsSafe digests now s st h

  -- In every state that a peer of the local network gets into, its host has eight sessions at most,
  -- no two under one identity, and each paired one has a name and no approval due; its client is
  -- paired only after its hello and, if authentication is configured, after the host's proof, and
  -- only then has requests pending, thirty-two at most; a QR code that is shown has a token for its
  -- code. The transport keeps the order of its signals.
  pub Reached-IsSafe : {st : Lan} → Reached links digests st → IsSafe st
  unfolding fresh
  Reached-IsSafe starts = blank-IsSafe _ refl refl refl refl
  Reached-IsSafe (goes {st} r now e ok) = step-IsSafe now e st ok (Reached-IsSafe r)

-- ===== src/Lan/Proofs/Offers.antt =====
-- src/LanPeer.cpp: the code of a QR code that is shown is well-formed, through every operation.
use ii_server_host.Prelude.Dict
use ii_server_host.Prelude.{
  Option-cases, is_some, if_rule, ℕ, ◌≡◌, refl, inl, inr, true, ◌&&◌, ◌||◌, not, Option, [],
}
use ii_server_host.Prelude.Text.{Text, text, eq, is_empty}
use ii_server_host.Json.{Object, to_object, value, is_null_object}
use ii_server_host.Prelude.Dict.{nat_eq, text_eq, Dict}
use ii_server_host.Lan.Link.{hex_token, Digests, authentication_context}
use ii_server_host.Lan.State.{
  Socket, Session, verifying, confirming, same_phase, Lan, emit, emit_all, drop_client,
  complete_all, put_session, member, signs, labelled, is_configured, opens_files, handled,
}
use ii_server_host.Lan.Host.{
  reject, is_refused_pair, is_taken, fails_proof, open_files, can_confirm, confirm, can_request,
  serve, consume, pair, host_session, host_message,
}
use ii_server_host.Lan.Client.{
  fail, from_host, ready, joined, responded, checked_message, host_proves, client_message,
}

-- No QR code is shown, or its code is a token.
pub record HasOffer (st : Lan) : Type 0 where
  pub offered : (is_empty st.qr || hex_token st.offer.code) ≡ true

pub kept-HasOffer :
    {st u : Lan} → HasOffer st → u.qr ≡ st.qr → u.offer.code ≡ st.offer.code → HasOffer u
kept-HasOffer h e f = record { offered = rw (e, f) h.offered }

pub hidden-HasOffer : (u : Lan) → u.qr ≡ [] → HasOffer u
hidden-HasOffer u e = record { offered = rw e refl }

pub fail-HasOffer : (message : Text) (st : Lan) → HasOffer (fail message st)
unfolding fail complete_all drop_client emit emit_all
fail-HasOffer message st = hidden-HasOffer _ refl

ready-HasOffer : (m : Object) (st : Lan) → HasOffer st → HasOffer (ready m st)
unfolding ready emit
ready-HasOffer m st h =
    if_rule HasOffer (not (opens_files (to_object (value (text "files") m))))
      (λ _. fail-HasOffer _ _)
      λ _. elim (Option-cases st.client) [
        | inl e ↦ rw e (kept-HasOffer h refl refl)
        | inr (c, e) ↦ rw e (kept-HasOffer h refl refl)
      ]

joined-HasOffer : (m : Object) (st : Lan) → HasOffer st → HasOffer (joined m st)
unfolding joined emit
joined-HasOffer m st h =
    if_rule HasOffer (is_configured st && not st.authenticated) (λ _. fail-HasOffer _ st)
      (λ _. kept-HasOffer h refl refl)

responded-HasOffer : (m : Object) (st : Lan) → HasOffer st → HasOffer (responded m st)
unfolding responded emit
responded-HasOffer m st h =
    if_rule HasOffer (not (Dict.contains (member (text "id") m) st.requests)) (λ _. h)
      (λ _. kept-HasOffer h refl refl)

checked_message-HasOffer :
    (m : Object) (now : ℕ) (st : Lan) → HasOffer st → HasOffer (checked_message m now st)
unfolding checked_message emit
checked_message-HasOffer m now st h =
    let type = member (text "type") m in
    let checks = same_phase st.phase verifying in
    if_rule HasOffer (eq type (text "verify") && checks && from_host m st)
      (λ _. kept-HasOffer h refl refl)
      λ _.
        if_rule HasOffer
          (eq type (text "ready") && (checks || same_phase st.phase confirming) && from_host m st)
          (λ _. ready-HasOffer m st h)
          λ _.
            if_rule HasOffer (eq type (text "paired") && checks && from_host m st)
              (λ _. joined-HasOffer m st h)
              λ _.
                if_rule HasOffer (eq type (text "response") && st.client_paired)
                  (λ _. responded-HasOffer m st h) (λ _. fail-HasOffer _ st)

pub client_message-HasOffer :
    (m : Object) (now : ℕ) (st : Lan) → HasOffer st → HasOffer (client_message m now st)
unfolding client_message
client_message-HasOffer m now st h =
    let type = member (text "type") m in
    let proved : Lan = record st { authenticated = true } in
    if_rule HasOffer (eq type (text "error")) (λ _. fail-HasOffer _ st)
      λ _.
        if_rule HasOffer ((eq type (text "verify") || eq type (text "ready")) && is_configured st)
          (λ _.
            if_rule HasOffer (not (host_proves m st)) (λ _. fail-HasOffer _ st)
              (λ _. checked_message-HasOffer m now proved (kept-HasOffer h refl refl)))
          (λ _. checked_message-HasOffer m now st h)

reject-HasOffer :
    (s : Socket) (message : Text) (st : Lan) → HasOffer st → HasOffer (reject s message st)
unfolding reject emit
reject-HasOffer s message st h = kept-HasOffer h refl refl

pub open_files-HasOffer :
    (s : Socket) (id : Text) (proof : Object) (answer : Option Object) (st : Lan)
    → HasOffer st
    → HasOffer (open_files s id proof answer st)
unfolding open_files reject emit
open_files-HasOffer s id proof answer st h =
    if_rule HasOffer (not (opens_files (handled answer))) (λ _. kept-HasOffer h refl refl)
      (λ _. kept-HasOffer h refl refl)

module _ (digests : Digests) where
  consume-HasOffer :
      (s : Socket) (m : Object) (now : ℕ) (a : Session) (proof : Object) (answer : Option Object)
      (st : Lan)
      → HasOffer (consume digests s m now a proof answer st)
  unfolding consume put_session emit
  consume-HasOffer s m now a proof answer st =
      if_rule HasOffer (not (is_empty st.expected_peer)) (λ _. hidden-HasOffer _ refl)
        (λ _. open_files-HasOffer s _ proof answer _ (hidden-HasOffer _ refl))

  pair-HasOffer :
      (s : Socket) (m : Object) (now : ℕ) (a : Session) (answer : Option Object) (st : Lan)
      → HasOffer st
      → HasOffer (pair digests s m now a answer st)
  unfolding pair put_session
  pair-HasOffer s m now a answer st h =
      let context =
        authentication_context digests st.offer (member (text "peerId") m)
          (member (text "nonce") m) in
      let proof = signs st.signer (labelled (text "host") context) in
      if_rule HasOffer (is_refused_pair m now st) (λ _. reject-HasOffer s _ st h)
        λ _.
          if_rule HasOffer (is_taken (member (text "peerId") m) st.clients)
            (λ _. reject-HasOffer s _ st h)
            λ _.
              if_rule HasOffer (fails_proof m context st)
                (λ _. reject-HasOffer s _ _ (kept-HasOffer h refl refl))
                λ _.
                  if_rule HasOffer (is_some st.signer && is_null_object proof)
                    (λ _. reject-HasOffer s _ _ (kept-HasOffer h refl refl))
                    (λ _. consume-HasOffer s m now _ proof answer _)

  pub host_message-HasOffer :
      (s : Socket) (m : Object) (now : ℕ) (answer : Option Object) (st : Lan)
      → HasOffer st
      → HasOffer (host_message digests s m now answer st)
  unfolding host_message host_session confirm serve put_session emit
  host_message-HasOffer s m now answer st h =
      let type = member (text "type") m in
      elim (Option-cases (Dict.find s st.clients)) [
        | inl e ↦ rw e h
        | inr (a, e) ↦ rw e (
            if_rule HasOffer (eq type (text "pair") && is_empty a.id)
              (λ _. pair-HasOffer s m now a answer st h)
              λ _.
                if_rule HasOffer (eq type (text "confirm") && can_confirm a now)
                  (λ _. kept-HasOffer h refl refl)
                  λ _.
                    if_rule HasOffer (eq type (text "request") && can_request m a)
                      (λ _. kept-HasOffer h refl refl) (λ _. reject-HasOffer s _ st h))
      ]

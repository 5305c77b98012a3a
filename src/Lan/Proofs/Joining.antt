-- ===== src/Lan/Proofs/Joining.antt =====
-- src/LanPeer.cpp: what the joining side has agreed on with its host, through every operation.
-- A client is paired only after its hello and, if authentication is configured, after the host's
-- proof. Requests are pending only while it is paired, thirty-two at most.
use ii_server_host.Prelude.Dict
use ii_server_host.Json.{Object, to_object, value, size, is_null_object}
use ii_server_host.Protocol.{wire_limit, pin_certificate}
use ii_server_host.Prelude.Dict.{nat_eq, text_eq, Dict}
use ii_server_host.Prelude.{
  ltb, leb, Option-cases, is_some, if_rule, length, ℕ, ◌+◌, ◌-◌, ◌≤◌, ◌≡◌, refl, inl, inr, Bool,
  true, false, ◌&&◌, ◌||◌, not, [], arith,
}
use ii_server_host.Prelude.Text.{Text, text, eq}
use ii_server_host.Lan.Link.{Digests, authentication_context}
use ii_server_host.Lan.State.{
  Socket, verifying, confirming, same_phase, Lan, fresh, emit, emit_all, drop_client, complete_all,
  member, signs, labelled, is_configured, opens_files,
}
use ii_server_host.Lan.Client.{
  fail, address_at, or_else, from_host, ready, joined, responded, checked_message, client_message,
  client_frame, open_address, client_connected, client_error, request, post_request,
}
use ii_server_host.Lan.Proofs.Sides.{Side, side}

pub record IsJoined (j : Side) : Type 0 where
  pub said : j.client_paired ≡ true → j.hello_sent ≡ true
  pub proven :
      j.client_paired ≡ true
      → (is_some j.signer || is_some j.verifier) ≡ true
      → j.authenticated ≡ true
  pub quiet : j.client_paired ≡ false → j.requests ≡ []
  pub few : length j.requests ≤ 32

pub record HasSide (st : Lan) : Type 0 where
  pub agreed : IsJoined (side st)

-- Where nobody is paired, nothing is pending, and nothing else is asked.
unpaired-IsJoined : (j : Side) → j.client_paired ≡ false → j.requests ≡ [] → IsJoined j
unpaired-IsJoined j n q = record {
  said = λ p. absurd (cc (p, n));
  proven = λ p c. absurd (cc (p, n));
  quiet = λ _. q;
  few = rw q (omega arith);
}

pub unpaired-HasSide : (st : Lan) → st.client_paired ≡ false → st.requests ≡ [] → HasSide st
unpaired-HasSide st n q = record { agreed = unpaired-IsJoined (side st) n q }

pub fail-HasSide : (message : Text) (st : Lan) → HasSide (fail message st)
unfolding fail complete_all drop_client emit emit_all
fail-HasSide message st = unpaired-HasSide _ refl refl

pub same-HasSide : {st u : Lan} → HasSide st → side u ≡ side st → HasSide u
same-HasSide h e = record { agreed = rw e h.agreed }

-- Without a hello there is no pairing, and nothing is pending.
pub unsaid : {st : Lan} → HasSide st → st.hello_sent ≡ false → st.client_paired ≡ false
unsaid {st} h n = ground (arith, h.agreed.said, n)

module _ (digests : Digests) where
  pub open_address-HasSide :
      (s : Socket) (now : ℕ) (st : Lan)
      → st.client_paired ≡ false
      → HasSide st
      → HasSide (open_address digests s now st)
  unfolding open_address drop_client emit emit_all
  open_address-HasSide s now st n h =
      let q = h.agreed.quiet n in
      elim (Option-cases (address_at st.address_index st.joining.addresses)) [
        | inl e ↦ rw e (fail-HasSide _ _)
        | inr (address, e) ↦ rw e (
            if_rule HasSide
              (not
                (is_some (pin_certificate digests.from_hex digests.to_hex st.joining.fingerprint)))
              (λ _. fail-HasSide _ _) (λ _. unpaired-HasSide _ n q))
      ]

  pub client_connected-HasSide :
      (fingerprint nonce : Text) (st : Lan)
      → st.hello_sent ≡ false
      → HasSide st
      → HasSide (client_connected digests fingerprint nonce st)
  unfolding client_connected emit
  client_connected-HasSide fingerprint nonce st fresh h =
      let n = unsaid h fresh in
      let q = h.agreed.quiet n in
      let context = authentication_context digests st.joining st.client_id nonce in
      let proof = signs st.signer (labelled (text "client") context) in
      if_rule HasSide (not (eq fingerprint st.joining.fingerprint)) (λ _. fail-HasSide _ st)
        λ _.
          if_rule HasSide
            (is_configured st
              && (not (is_some st.signer) || not (is_some st.verifier) || is_null_object proof))
            (λ _. fail-HasSide _ _)
            (λ _. elim (Option-cases st.client) [
              | inl e ↦ rw e (unpaired-HasSide _ n q)
              | inr (c, e) ↦ rw e (unpaired-HasSide _ n q)
            ])

  pub client_error-HasSide :
      (message : Text) (s : Socket) (now : ℕ) (st : Lan)
      → HasSide st
      → HasSide (client_error digests message s now st)
  unfolding client_error
  client_error-HasSide message s now st h =
      let noted = record st { connection_error = message } in
      if_rule HasSide (not st.hello_sent)
        (λ y. open_address-HasSide s now noted (unsaid h (ground (arith, y))) (same-HasSide h refl))
        (λ _. fail-HasSide _ noted)

ready-HasSide : (m : Object) (st : Lan) → HasSide st → HasSide (ready m st)
unfolding ready emit
ready-HasSide m st h =
    if_rule HasSide (not (opens_files (to_object (value (text "files") m)))) (λ _. fail-HasSide _ _)
      (λ _. elim (Option-cases st.client) [
        | inl e ↦ rw e (same-HasSide h refl)
        | inr (c, e) ↦ rw e (same-HasSide h refl)
      ])

joined-HasSide : (m : Object) (st : Lan) → st.hello_sent ≡ true → HasSide st → HasSide (joined m st)
unfolding joined emit
joined-HasSide m st said h =
    if_rule HasSide (is_configured st && not st.authenticated) (λ _. fail-HasSide _ st)
      (λ n. record {
        agreed = record {
          said = λ _. said;
          proven = λ _ c. ground (arith, n, c);
          quiet = λ p. absurd (cc p);
          few = h.agreed.few;
        };
      })

pub without_request-HasSide :
    (id : Text) (st : Lan)
    → HasSide st
    → HasSide (record st { requests = Dict.remove id st.requests })
without_request-HasSide id st h = record {
  agreed = record {
    said = h.agreed.said;
    proven = h.agreed.proven;
    quiet = λ p. rw (h.agreed.quiet p) (unfold Dict.remove in refl);
    few = omega (arith, h.agreed.few, Dict.length-remove-le id st.requests);
  };
}

responded-HasSide : (m : Object) (st : Lan) → HasSide st → HasSide (responded m st)
unfolding responded emit
responded-HasSide m st h =
    let id = member (text "id") m in
    if_rule HasSide (not (Dict.contains id st.requests)) (λ _. h)
      (λ _. same-HasSide (without_request-HasSide id st h) refl)

checked_message-HasSide :
    (m : Object) (now : ℕ) (st : Lan)
    → st.hello_sent ≡ true
    → HasSide st
    → HasSide (checked_message m now st)
unfolding checked_message emit
checked_message-HasSide m now st said h =
    let type = member (text "type") m in
    let checks = same_phase st.phase verifying in
    if_rule HasSide (eq type (text "verify") && checks && from_host m st) (λ _. same-HasSide h refl)
      λ _.
        if_rule HasSide
          (eq type (text "ready") && (checks || same_phase st.phase confirming) && from_host m st)
          (λ _. ready-HasSide m st h)
          λ _.
            if_rule HasSide (eq type (text "paired") && checks && from_host m st)
              (λ _. joined-HasSide m st said h)
              λ _.
                if_rule HasSide (eq type (text "response") && st.client_paired)
                  (λ _. responded-HasSide m st h) (λ _. fail-HasSide _ st)

pub client_message-HasSide :
    (m : Object) (now : ℕ) (st : Lan)
    → st.hello_sent ≡ true
    → HasSide st
    → HasSide (client_message m now st)
unfolding client_message
client_message-HasSide m now st said h =
    let proved : Lan = record st { authenticated = true } in
    let sure : HasSide proved = record {
      agreed = record {
        said = h.agreed.said;
        proven = λ _ _. refl;
        quiet = h.agreed.quiet;
        few = h.agreed.few;
      };
    } in
    ground (
      arith,
      fail-HasSide (text "Host account authentication failed.") st,
      fail-HasSide (or_else (text "Pairing failed. Scan a new QR code.") (value (text "error") m))
          st,
      checked_message-HasSide m now proved said sure,
      checked_message-HasSide m now st said h,
    )

pub client_frame-HasSide :
    (m : Object) (now : ℕ) (st : Lan)
    → st.hello_sent ≡ true
    → HasSide st
    → HasSide (client_frame m now st)
unfolding client_frame
client_frame-HasSide m now st said h =
    if_rule HasSide (not st.client_paired || not st.client_binary) (λ _. fail-HasSide _ st)
      (λ _. client_message-HasSide m now st said h)

pub request-HasSide :
    (id host : Text) (payload : Object) (size now : ℕ) (st : Lan)
    → HasSide st
    → HasSide (request id host payload size now st)
unfolding request emit
request-HasSide id host payload size now st h =
    if_rule HasSide
      (not st.client_paired
        || not (eq host st.joining.host_id)
        || leb 32 (length st.requests)
        || ltb (wire_limit - 1024) size)
      (λ _. same-HasSide h refl)
      (λ n. record {
        agreed = record {
          said = h.agreed.said;
          proven = h.agreed.proven;
          quiet = λ p. absurd (ground (arith, n, p));
          few = ground (arith, n, Dict.length-insert-le id (now + 15000) st.requests);
        };
      })

pub post_request-HasSide :
    (id : Text) (payload : Object) (sent : Bool) (st : Lan)
    → HasSide st
    → HasSide (post_request id payload sent st)
unfolding post_request emit
post_request-HasSide id payload sent st h =
    if_rule HasSide (not (Dict.contains id st.requests)) (λ _. h)
      λ _. elim (Option-cases st.client) [
        | inl e ↦ rw e (fail-HasSide _ st)
        | inr (c, e) ↦
            rw e (if_rule HasSide sent (λ _. same-HasSide h refl) (λ _. fail-HasSide _ st))
      ]

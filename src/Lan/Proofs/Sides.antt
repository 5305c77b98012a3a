-- ===== src/Lan/Proofs/Sides.antt =====
-- src/LanPeer.cpp: the side that joins. What it has agreed on with its host, through every operation.
use ii_server_host.Lan.Offers.{
  accept, host_disconnected, drop_unpaired, drop_all_unpaired, cancel_pairing, create_offer,
  create_device_offer, confirm_first, confirm_device,
}
use ii_server_host.Prelude.Dict
use ii_server_host.Prelude.{
  Option-cases, is_some, if_rule, ℕ, ◌≡◌, refl, ◌∙◌, inl, inr, Bool, ◌&&◌, not, Option, List, [],
  ◌∷◌, arith,
}
use ii_server_host.Prelude.Text.{Text, Bytes, text, eq, is_empty}
use ii_server_host.Json.{Object, is_null_object}
use ii_server_host.Prelude.Dict.{nat_eq, text_eq, Dict}
use ii_server_host.Lan.Link.{Links, Digests, authentication_context}
use ii_server_host.Lan.State.{
  Socket, Session, Lan, emit, emit_all, drop_client, put_session, without_code, member, signs,
  labelled, opens_files, handled,
}
use ii_server_host.Lan.Host.{
  reject, is_refused_pair, is_taken, fails_proof, open_files, can_confirm, confirm, can_request,
  serve, consume, pair, host_session, host_message, host_frame,
}

-- What the joining side has agreed on
pub record Side : Type 0 where
  pub client_paired : Bool
  pub hello_sent : Bool
  pub authenticated : Bool
  pub signer : Option (Bytes → Object)
  pub verifier : Option (Bytes → Object → Bool)
  pub requests : Dict Text ℕ

abbrev pub side : Lan → Side
side st = record {
  client_paired = st.client_paired;
  hello_sent = st.hello_sent;
  authenticated = st.authenticated;
  signer = st.signer;
  verifier = st.verifier;
  requests = st.requests;
}

-- The joining side is the same in both states.
record IsAside (st u : Lan) : Type 0 where
  same : side u ≡ side st

open_files-IsAside :
    (s : Socket) (id : Text) (proof : Object) (answer : Option Object) (st u : Lan)
    → IsAside st u
    → IsAside st (open_files s id proof answer u)
unfolding open_files reject emit
open_files-IsAside s id proof answer st u h =
    if_rule (IsAside st) (not (opens_files (handled answer))) (λ _. record { same = h.same })
      (λ _. record { same = h.same })

module _ (digests : Digests) where
  pair-IsAside :
      (s : Socket) (m : Object) (now : ℕ) (a : Session) (answer : Option Object) (st : Lan)
      → IsAside st (pair digests s m now a answer st)
  unfolding pair consume put_session reject emit
  pair-IsAside s m now a answer st =
      let id = member (text "peerId") m in
      let context = authentication_context digests st.offer id (member (text "nonce") m) in
      let proof = signs st.signer (labelled (text "host") context) in
      let P : Lan → Type 0 = λ u. IsAside st u in
      if_rule P (is_refused_pair m now st) (λ _. record { same = refl })
        λ _.
          if_rule P (is_taken id st.clients) (λ _. record { same = refl })
            λ _.
              if_rule P (fails_proof m context st) (λ _. record { same = refl })
                λ _.
                  if_rule P (is_some st.signer && is_null_object proof)
                    (λ _. record { same = refl })
                    λ _.
                      if_rule P (not (is_empty st.expected_peer)) (λ _. record { same = refl })
                        (λ _. open_files-IsAside s id proof answer st _ (record { same = refl }))

  host_message-IsAside :
      (s : Socket) (m : Object) (now : ℕ) (answer : Option Object) (st : Lan)
      → IsAside st (host_message digests s m now answer st)
  unfolding host_message host_session confirm serve put_session reject emit
  host_message-IsAside s m now answer st =
      let type = member (text "type") m in
      let P : Lan → Type 0 = λ u. IsAside st u in
      elim (Option-cases (Dict.find s st.clients)) [
        | inl e ↦ rw e (record { same = refl })
        | inr (a, e) ↦ rw e (
            if_rule P (eq type (text "pair") && is_empty a.id)
              (λ _. pair-IsAside s m now a answer st)
              λ _.
                if_rule P (eq type (text "confirm") && can_confirm a now)
                  (λ _. record { same = refl })
                  λ _.
                    if_rule P (eq type (text "request") && can_request m a)
                      (λ _. record { same = refl }) (λ _. record { same = refl }))
      ]

  pub side-host_message :
      (s : Socket) (m : Object) (now : ℕ) (answer : Option Object) (st : Lan)
      → side (host_message digests s m now answer st) ≡ side st
  side-host_message s m now answer st = (host_message-IsAside s m now answer st).same

  pub side-host_frame :
      (s : Socket) (m : Object) (now : ℕ) (answer : Option Object) (st : Lan)
      → side (host_frame digests s m now answer st) ≡ side st
  unfolding host_frame emit
  side-host_frame s m now answer st = ground (arith, side-host_message s m now answer st)

pub side-accept :
    (links : Links) (s : Socket) (address : Text) (now : ℕ) (st : Lan)
    → side (accept links s address now st) ≡ side st
unfolding accept put_session emit
side-accept links s address now st = ground arith

pub side-host_disconnected : (s : Socket) (st : Lan) → side (host_disconnected s st) ≡ side st
unfolding host_disconnected emit
side-host_disconnected s st = ground arith

pub side-drop_all_unpaired :
    (ss : List Socket) (st : Lan) → side (drop_all_unpaired ss st) ≡ side st
unfolding drop_all_unpaired drop_unpaired emit
side-drop_all_unpaired [] st = refl
side-drop_all_unpaired (s ∷ ss) st =
    let here : side (drop_unpaired s st) ≡ side st = ground arith in
    side-drop_all_unpaired ss (drop_unpaired s st) ∙ here

pub side-cancel_pairing : (st : Lan) → side (cancel_pairing st) ≡ side st
unfolding cancel_pairing drop_client emit emit_all
side-cancel_pairing st =
    let hidden : Lan = record st {
      qr = [];
      offer = without_code st.offer;
      expected_peer = [];
      verification_code = [];
    } in
    let cut = side-drop_all_unpaired (Dict.keys st.clients) hidden in ground (arith, cut)

pub side-create_offer :
    (links : Links) (lifetime : ℕ) (code : Text) (now : ℕ) (st : Lan)
    → side (create_offer links lifetime code now st).1 ≡ side st
unfolding create_offer emit
side-create_offer links lifetime code now st = ground (arith, side-cancel_pairing st)

pub side-create_device_offer :
    (links : Links) (peer : Text) (lifetime : ℕ) (code : Text) (now : ℕ) (st : Lan)
    → side (create_device_offer links peer lifetime code now st).1 ≡ side st
unfolding create_device_offer
side-create_device_offer links peer lifetime code now st =
    ground (arith, side-create_offer links lifetime code now st)

pub side-confirm_first :
    (ss : List Socket) (now : ℕ) (answer : Option Object) (st : Lan)
    → side (confirm_first ss now answer st).1 ≡ side st
unfolding confirm_first open_files put_session reject emit
side-confirm_first [] now answer st = refl
side-confirm_first (s ∷ ss) now answer st = ground (arith, side-confirm_first ss now answer st)

pub side-confirm_device :
    (now : ℕ) (answer : Option Object) (st : Lan) → side (confirm_device now answer st).1 ≡ side st
unfolding confirm_device
side-confirm_device now answer st =
    ground (arith, side-confirm_first (Dict.keys st.clients) now answer st)

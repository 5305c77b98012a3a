-- ===== src/Lan/Proofs/Hosted.antt =====
-- src/LanPeer.cpp: the invariant of a peer, through the operations of its host.
use ii_server_host.Lan.Offers.{
  accept, interrupts, host_disconnected, drop_unpaired, drop_all_unpaired, cancel_pairing,
  create_offer, create_device_offer, confirm_first, confirm_device,
}
use ii_server_host.Lan.Proofs.Offering.{
  accept-HasTable, host_disconnected-HasTable, cancel_pairing-HasTable, create_offer-HasTable,
  confirm_first-HasTable,
}
use ii_server_host.Prelude.Dict
use ii_server_host.Prelude.{
  ltb, leb, Bool-cases, Option-cases, is_some, if_rule, length, ℕ, ◌+◌, ◌*◌, ◌≡◌, refl, ◌∙◌, inl,
  inr, Bool, true, ◌&&◌, ◌||◌, not, Option, some, List, [], ◌∷◌, arith,
}
use ii_server_host.Prelude.Text.{Text, text, eq, is_empty}
use ii_server_host.Json.{Object, is_null_object}
use ii_server_host.Protocol.{identifier}
use ii_server_host.Prelude.Dict.{nat_eq, text_eq, Dict}
use ii_server_host.Prelude.Int.{pos}
use ii_server_host.Lan.Link.{Links, LanLink, hex_token, local_address, valid_link, encode_link}
use ii_server_host.Lan.State.{
  Socket, confirming, same_phase, Lan, emit, emit_all, drop_client, put_session, without_code,
  signs, labelled,
}
use ii_server_host.Lan.Proofs.Sides.{
  side-accept, side-host_disconnected, side-cancel_pairing, side-create_offer, side-confirm_first,
}
use ii_server_host.Lan.Proofs.Joining.{same-HasSide}
use ii_server_host.Lan.Proofs.Offers.{HasOffer, kept-HasOffer, hidden-HasOffer, open_files-HasOffer}
use ii_server_host.Lan.Proofs.Sweeps.{IsSafe, same-IsSafe}

pub accept-IsSafe :
    (links : Links) (s : Socket) (address : Text) (now : ℕ) (st : Lan)
    → IsSafe st
    → IsSafe (accept links s address now st)
unfolding accept put_session emit
accept-IsSafe links s address now st h = record {
  host = accept-HasTable links s address now st h.host;
  client = same-HasSide h.client (side-accept links s address now st);
  offer =
      if_rule HasOffer (leb 8 (length st.clients) || not (local_address links address))
        (λ _. kept-HasOffer h.offer refl refl) (λ _. kept-HasOffer h.offer refl refl);
}

pub host_disconnected-IsSafe : (s : Socket) (st : Lan) → IsSafe st → IsSafe (host_disconnected s st)
unfolding host_disconnected emit
host_disconnected-IsSafe s st h = record {
  host = host_disconnected-HasTable s st h.host;
  client = same-HasSide h.client (side-host_disconnected s st);
  offer =
      if_rule HasOffer (interrupts st.phase (Dict.find s st.clients))
        (λ _. kept-HasOffer h.offer refl refl) (λ _. kept-HasOffer h.offer refl refl);
}

qr-drop_all_unpaired : (ss : List Socket) (st : Lan) → (drop_all_unpaired ss st).qr ≡ st.qr
unfolding drop_all_unpaired drop_unpaired emit
qr-drop_all_unpaired [] st = refl
qr-drop_all_unpaired (s ∷ ss) st =
    let here : (drop_unpaired s st).qr ≡ st.qr = ground arith in
    qr-drop_all_unpaired ss (drop_unpaired s st) ∙ here

qr-cancel_pairing : (st : Lan) → (cancel_pairing st).qr ≡ []
unfolding cancel_pairing drop_client emit emit_all
qr-cancel_pairing st =
    let hidden : Lan = record st {
      qr = [];
      offer = without_code st.offer;
      expected_peer = [];
      verification_code = [];
    } in
    ground (arith, qr-drop_all_unpaired (Dict.keys st.clients) hidden)

pub cancel_pairing-IsSafe : (st : Lan) → IsSafe st → IsSafe (cancel_pairing st)
cancel_pairing-IsSafe st h = record {
  host = cancel_pairing-HasTable st h.host;
  client = same-HasSide h.client (side-cancel_pairing st);
  offer = hidden-HasOffer _ (qr-cancel_pairing st);
}

-- A link that has a text has a token for its code.
encoded_token :
    (links : Links) (link : LanLink)
    → (is_empty (encode_link links link) || hex_token link.code) ≡ true
unfolding encode_link valid_link
encoded_token links link = ground arith

create_offer-HasOffer :
    (links : Links) (lifetime : ℕ) (code : Text) (now : ℕ) (st : Lan)
    → HasOffer st
    → HasOffer (create_offer links lifetime code now st).1
unfolding create_offer emit
create_offer-HasOffer links lifetime code now st h =
    if_rule (λ (r : Text × Lan). HasOffer r.1) (not st.server || ltb lifetime 1 || ltb 60 lifetime)
      (λ _. h)
      (λ _. record {
        offered = encoded_token links (record (cancel_pairing st).offer {
          code = code;
          expires_at = some (pos (now + 1000 * lifetime));
        });
      })

pub create_offer-IsSafe :
    (links : Links) (lifetime : ℕ) (code : Text) (now : ℕ) (st : Lan)
    → IsSafe st
    → IsSafe (create_offer links lifetime code now st).1
create_offer-IsSafe links lifetime code now st h = record {
  host = create_offer-HasTable links lifetime code now st h.host;
  client = same-HasSide h.client (side-create_offer links lifetime code now st);
  offer = create_offer-HasOffer links lifetime code now st h.offer;
}

pub create_device_offer-IsSafe :
    (links : Links) (peer : Text) (lifetime : ℕ) (code : Text) (now : ℕ) (st : Lan)
    → IsSafe st
    → IsSafe (create_device_offer links peer lifetime code now st).1
unfolding create_device_offer
create_device_offer-IsSafe links peer lifetime code now st h =
    let made = create_offer-IsSafe links lifetime code now st h in
    let P : Text × Lan → Type 0 = λ r. IsSafe r.1 in
    if_rule P (not (identifier peer) || eq peer st.offer.host_id) (λ _. h)
      λ _.
        if_rule P (is_empty (create_offer links lifetime code now st).0) (λ _. made)
          (λ _. same-IsSafe made refl refl refl refl)

confirm_first-HasOffer :
    (ss : List Socket) (now : ℕ) (answer : Option Object) (st : Lan)
    → HasOffer st
    → HasOffer (confirm_first ss now answer st).1
unfolding confirm_first put_session emit
confirm_first-HasOffer [] now answer st h = h
confirm_first-HasOffer (s ∷ ss) now answer st h =
    let rest = confirm_first-HasOffer ss now answer st h in
    elim (Option-cases (Dict.find s st.clients)) [
      | inl e ↦ rw (confirm_first, e) rest
      | inr (a, e) ↦ elim (Bool-cases (not a.awaiting_approval || leb a.deadline now)) [
        | inl y ↦ rw (confirm_first, e, y) rest
        | inr n ↦
            let proof = signs st.signer (labelled (text "host") a.authentication) in
            elim (Bool-cases (is_some st.signer && is_null_object proof)) [
              | inl y ↦ rw (confirm_first, e, n, y) (kept-HasOffer h refl refl)
              | inr m ↦
                  rw (confirm_first, e, n, m)
                    (open_files-HasOffer s a.id proof answer _ (kept-HasOffer h refl refl))
            ]
      ]
    ]

pub confirm_device-IsSafe :
    (now : ℕ) (answer : Option Object) (st : Lan)
    → IsSafe st
    → IsSafe (confirm_device now answer st).1
unfolding confirm_device
confirm_device-IsSafe now answer st h =
    if_rule (λ (r : Bool × Lan). IsSafe r.1) (not (same_phase st.phase confirming)) (λ _. h)
      (λ _. record {
        host = confirm_first-HasTable (Dict.keys st.clients) now answer st h.host;
        client = same-HasSide h.client (side-confirm_first (Dict.keys st.clients) now answer st);
        offer = confirm_first-HasOffer (Dict.keys st.clients) now answer st h.offer;
      })

-- ===== src/Lan/Proofs/Offering.antt =====
-- src/LanPeer.cpp: the connections, the offers and the approval keep the table of the host's sessions.
use ii_server_host.Prelude.Dict
use ii_server_host.Prelude.{
  ltb, leb, Bool-cases, Option-cases, is_some, if_rule, length, ℕ, ◌+◌, ◌≡◌, refl, inl, inr, Bool,
  true, false, ◌&&◌, ◌||◌, not, Option, some, List, [], ◌∷◌, arith,
}
use ii_server_host.Prelude.Text.{Text, text, eq, is_empty}
use ii_server_host.Json.{Object, is_null_object}
use ii_server_host.Protocol.{identifier}
use ii_server_host.Prelude.Dict.{nat_eq, text_eq, Dict}
use ii_server_host.Lan.Link.{Links, local_address}
use ii_server_host.Lan.State.{
  Socket, Session, confirming, same_phase, Lan, emit, drop_client, put_session, without_code, signs,
  labelled,
}
use ii_server_host.Lan.Offers.{
  new_session, accept, interrupts, host_disconnected, is_paired, drop_unpaired, drop_all_unpaired,
  cancel_pairing, create_offer, create_device_offer, confirm_first, confirm_device,
}
use ii_server_host.Lan.Proofs.Tables.{
  IsSound, remove-IsTable, insert-IsTable, replace-IsTable, unpaired-IsSound,
}
use ii_server_host.Lan.Proofs.Hosting.{HasTable, open_files-HasTable}

pub accept-HasTable :
    (links : Links) (s : Socket) (address : Text) (now : ℕ) (st : Lan)
    → HasTable st
    → HasTable (accept links s address now st)
unfolding accept put_session new_session emit
accept-HasTable links s address now st h =
    if_rule HasTable (leb 8 (length st.clients) || not (local_address links address))
      (λ _. record { table = h.table })
      (λ n. record {
        table =
            insert-IsTable s (new_session now) st.clients h.table
              (ground (arith, n, Dict.length-insert-le s (new_session now) st.clients))
              (unpaired-IsSound (new_session now) refl) (λ t b f i named. absurd (cc named));
      })

pub host_disconnected-HasTable :
    (s : Socket) (st : Lan) → HasTable st → HasTable (host_disconnected s st)
unfolding host_disconnected emit
host_disconnected-HasTable s st h =
    let left = remove-IsTable s st.clients h.table in
    if_rule HasTable (interrupts st.phase (Dict.find s st.clients)) (λ _. record { table = left })
      (λ _. record { table = left })

drop_unpaired-HasTable : (s : Socket) (st : Lan) → HasTable st → HasTable (drop_unpaired s st)
unfolding drop_unpaired emit
drop_unpaired-HasTable s st h =
    if_rule HasTable (is_paired (Dict.find s st.clients)) (λ _. h)
      (λ _. record { table = remove-IsTable s st.clients h.table })

drop_all_unpaired-HasTable :
    (ss : List Socket) (st : Lan) → HasTable st → HasTable (drop_all_unpaired ss st)
unfolding drop_all_unpaired
drop_all_unpaired-HasTable [] st h = h
drop_all_unpaired-HasTable (s ∷ ss) st h =
    drop_all_unpaired-HasTable ss (drop_unpaired s st) (drop_unpaired-HasTable s st h)

pub cancel_pairing-HasTable : (st : Lan) → HasTable st → HasTable (cancel_pairing st)
unfolding cancel_pairing drop_client emit
cancel_pairing-HasTable st h =
    let hidden : Lan = record st {
      qr = [];
      offer = without_code st.offer;
      expected_peer = [];
      verification_code = [];
    } in
    let cut =
      drop_all_unpaired-HasTable (Dict.keys st.clients) hidden (record { table = h.table }) in
    let shut = drop_all_unpaired (Dict.keys st.clients) hidden in
    let left = if_rule HasTable shut.client_paired (λ _. cut) (λ _. record { table = cut.table }) in
    record { table = left.table }

pub create_offer-HasTable :
    (links : Links) (lifetime : ℕ) (code : Text) (now : ℕ) (st : Lan)
    → HasTable st
    → HasTable (create_offer links lifetime code now st).1
unfolding create_offer emit
create_offer-HasTable links lifetime code now st h =
    if_rule (λ (r : Text × Lan). HasTable r.1) (not st.server || ltb lifetime 1 || ltb 60 lifetime)
      (λ _. h) (λ _. record { table = (cancel_pairing-HasTable st h).table })

create_device_offer-HasTable :
    (links : Links) (peer : Text) (lifetime : ℕ) (code : Text) (now : ℕ) (st : Lan)
    → HasTable st
    → HasTable (create_device_offer links peer lifetime code now st).1
unfolding create_device_offer
create_device_offer-HasTable links peer lifetime code now st h =
    let made = create_offer-HasTable links lifetime code now st h in
    if_rule (λ (r : Text × Lan). HasTable r.1) (not (identifier peer) || eq peer st.offer.host_id)
      (λ _. h)
      (λ _.
        if_rule (λ (r : Text × Lan). HasTable r.1)
          (is_empty (create_offer links lifetime code now st).0) (λ _. made)
          (λ _. record { table = made.table }))

-- The device is approved, and its session is kept.
approve-HasTable :
    (s : Socket) (a : Session) (now : ℕ) (st : Lan)
    → HasTable st
    → Dict.find s st.clients ≡ some a
    → a.awaiting_approval ≡ true
    → HasTable (put_session s (record a { awaiting_approval = false; deadline = now + 15000 }) st)
unfolding put_session
approve-HasTable s a now st h e waits =
    let approved = record a { awaiting_approval = false; deadline = now + 15000 } in
    let ok : IsSound approved = record {
      approved = λ p. refl;
      named = (h.table.sound s a e).named;
    } in
    record { table = replace-IsTable s approved a st.clients h.table e ok refl }

pub confirm_first-HasTable :
    (ss : List Socket) (now : ℕ) (answer : Option Object) (st : Lan)
    → HasTable st
    → HasTable (confirm_first ss now answer st).1
unfolding confirm_first emit
confirm_first-HasTable [] now answer st h = h
confirm_first-HasTable (s ∷ ss) now answer st h =
    let rest = confirm_first-HasTable ss now answer st h in
    elim (Option-cases (Dict.find s st.clients)) [
      | inl e ↦ rw (confirm_first, e) rest
      | inr (a, e) ↦ elim (Bool-cases (not a.awaiting_approval || leb a.deadline now)) [
        | inl y ↦ rw (confirm_first, e, y) rest
        | inr n ↦
            let proof = signs st.signer (labelled (text "host") a.authentication) in
            let kept = approve-HasTable s a now st h e (ground (arith, n)) in
            elim (Bool-cases (is_some st.signer && is_null_object proof)) [
              | inl y ↦ rw (confirm_first, e, n, y) (record { table = kept.table })
              | inr m ↦ rw (confirm_first, e, n, m) (open_files-HasTable s a.id proof answer _ kept)
            ]
      ]
    ]

confirm_device-HasTable :
    (now : ℕ) (answer : Option Object) (st : Lan)
    → HasTable st
    → HasTable (confirm_device now answer st).1
unfolding confirm_device
confirm_device-HasTable now answer st h =
    if_rule (λ (r : Bool × Lan). HasTable r.1) (not (same_phase st.phase confirming)) (λ _. h)
      (λ _. confirm_first-HasTable (Dict.keys st.clients) now answer st h)

-- ===== src/Lan/Proofs/Hosting.antt =====
-- src/LanPeer.cpp: every operation of the host keeps the table of its sessions.
use ii_server_host.Prelude.Dict
use ii_server_host.Prelude.{
  Option-cases, is_some, if_rule, ℕ, ◌≡◌, refl, inl, inr, true, false, ◌&&◌, not, Option, some,
  arith,
}
use ii_server_host.Prelude.Text.{Text, text, eq, is_empty}
use ii_server_host.Json.{Object, is_null_object}
use ii_server_host.Prelude.Dict.{nat_eq, text_eq, Dict}
use ii_server_host.Lan.Link.{Digests, authentication_context}
use ii_server_host.Lan.State.{
  Socket, Session, Lan, emit, put_session, member, signs, labelled, opens_files, handled,
}
use ii_server_host.Lan.Host.{
  reject, is_refused_pair, is_taken, fails_proof, open_files, named_session, can_confirm, confirm,
  can_request, serve, may_send_frames, consume, pair, host_session, host_message, host_frame,
}
use ii_server_host.Lan.Proofs.Tables.{
  IsSound, IsTable, length-insert_known, insert-IsTable, replace-IsTable, is_taken_sound,
  is_taken-insert, unnamed_unpaired, unpaired-IsSound,
}

-- What is said of the sessions of a state, whatever was sent
pub record HasTable (st : Lan) : Type 0 where
  pub table : IsTable st.clients

pub reject-HasTable :
    (s : Socket) (message : Text) (st : Lan) → HasTable st → HasTable (reject s message st)
unfolding reject emit
reject-HasTable s message st h = record { table = h.table }

pub open_files-HasTable :
    (s : Socket) (id : Text) (proof : Object) (answer : Option Object) (st : Lan)
    → HasTable st
    → HasTable (open_files s id proof answer st)
unfolding open_files reject emit
open_files-HasTable s id proof answer st h =
    if_rule HasTable (not (opens_files (handled answer))) (λ _. record { table = h.table })
      (λ _. record { table = h.table })

module _ (digests : Digests) where
  consume-HasTable :
      (s : Socket) (m : Object) (now : ℕ) (a : Session) (proof : Object) (answer : Option Object)
      (st : Lan)
      → HasTable st
      → Dict.find s st.clients ≡ some a
      → is_empty a.id ≡ true
      → is_taken (member (text "peerId") m) st.clients ≡ false
      → HasTable (consume digests s m now a proof answer st)
  unfolding consume named_session put_session emit
  consume-HasTable s m now a proof answer st h e unnamed free =
      let discovered = not (is_empty st.expected_peer) in
      let new = named_session m now discovered a in
      let done : IsTable (Dict.insert s new st.clients) =
        insert-IsTable s new st.clients h.table
          (omega (arith, h.table.few, length-insert_known s new a st.clients e))
          (unpaired-IsSound new (unnamed_unpaired a (h.table.sound s a e) unnamed))
          (λ t b f i n. absurd (is_taken_sound _ st.clients t b free f i)) in
      if_rule HasTable discovered (λ _. record { table = done })
        (λ _. open_files-HasTable s _ proof answer _ (record { table = done }))

  pair-HasTable :
      (s : Socket) (m : Object) (now : ℕ) (a : Session) (answer : Option Object) (st : Lan)
      → HasTable st
      → Dict.find s st.clients ≡ some a
      → is_empty a.id ≡ true
      → HasTable (pair digests s m now a answer st)
  unfolding pair put_session
  pair-HasTable s m now a answer st h e unnamed =
      let context =
        authentication_context digests st.offer (member (text "peerId") m)
          (member (text "nonce") m) in
      let known = record a { authentication = context } in
      let proof = signs st.signer (labelled (text "host") context) in
      let plain = unpaired-IsSound known (unnamed_unpaired a (h.table.sound s a e) unnamed) in
      let kept = put_session s known st in
      let table : HasTable kept = record {
        table = replace-IsTable s known a st.clients h.table e plain refl;
      } in
      if_rule HasTable (is_refused_pair m now st) (λ _. reject-HasTable s _ st h)
        λ _.
          if_rule HasTable (is_taken (member (text "peerId") m) st.clients)
            (λ _. reject-HasTable s _ st h)
            λ free.
              if_rule HasTable (fails_proof m context st) (λ _. reject-HasTable s _ kept table)
                λ _.
                  if_rule HasTable (is_some st.signer && is_null_object proof)
                    (λ _. reject-HasTable s _ kept table)
                    λ _.
                      consume-HasTable s m now known _ answer kept table
                        (Dict.find-insert_self s known st.clients) unnamed
                        (is_taken-insert _ s known a st.clients e refl free)

  confirm-HasTable :
      (s : Socket) (a : Session) (now : ℕ) (st : Lan)
      → HasTable st
      → Dict.find s st.clients ≡ some a
      → can_confirm a now ≡ true
      → HasTable (confirm s a st)
  unfolding confirm can_confirm put_session emit
  confirm-HasTable s a now st h e can =
      let joined = record a { paired = true; iish_binary = a.binary } in
      let ok : IsSound joined = record {
        approved = λ p. ground (arith, can);
        named = λ p. ground (arith, can);
      } in
      record { table = replace-IsTable s joined a st.clients h.table e ok refl }

  pub host_message-HasTable :
      (s : Socket) (m : Object) (now : ℕ) (answer : Option Object) (st : Lan)
      → HasTable st
      → HasTable (host_message digests s m now answer st)
  unfolding host_message host_session serve emit
  host_message-HasTable s m now answer st h = elim (Option-cases (Dict.find s st.clients)) [
    | inl e ↦ rw e h
    | inr (a, e) ↦ rw e (
        if_rule HasTable (eq (member (text "type") m) (text "pair") && is_empty a.id)
          (λ y. pair-HasTable s m now a answer st h e (ground (arith, y)))
          λ _.
            if_rule HasTable (eq (member (text "type") m) (text "confirm") && can_confirm a now)
              (λ y. confirm-HasTable s a now st h e (ground (arith, y)))
              λ _.
                if_rule HasTable (eq (member (text "type") m) (text "request") && can_request m a)
                  (λ _. record { table = h.table }) (λ _. reject-HasTable s _ st h))
  ]

  pub host_frame-HasTable :
      (s : Socket) (m : Object) (now : ℕ) (answer : Option Object) (st : Lan)
      → HasTable st
      → HasTable (host_frame digests s m now answer st)
  unfolding host_frame emit
  host_frame-HasTable s m now answer st h =
      if_rule HasTable (not (may_send_frames (Dict.find s st.clients)))
        (λ _. record { table = h.table }) (λ _. host_message-HasTable s m now answer st h)

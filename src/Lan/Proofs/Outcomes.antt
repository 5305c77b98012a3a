-- ===== src/Lan/Proofs/Outcomes.antt =====
-- src/LanPeer.cpp: what a `pair` message has led to.
use ii_server_host.Lan.Proofs.Tables.{unnamed_unpaired}
use ii_server_host.Lan.Steps.{Reached}
use ii_server_host.Lan.Proofs.Reached.{Reached-IsSafe}
use mathlib.Core.Option.{some-injective}
use ii_server_host.Lan.Proofs.Codes.{same_code_exact}
use ii_server_host.Prelude.Dict
use ii_server_host.Prelude.{
  is_some, if_rule, ℕ, ◌≡◌, refl, sym, ◌∙◌, ◌⊎◌, inl, inr, true, false, ◌&&◌, not, Option, some, [],
  arith,
}
use ii_server_host.Prelude.Text.{Text, Bytes, text, eq, eq_iff, is_empty}
use ii_server_host.Json.{Object, to_object, value, is_null_object}
use ii_server_host.Protocol.{identifier, is_over}
use ii_server_host.Prelude.Dict.{nat_eq, text_eq, Dict}
use ii_server_host.Lan.Link.{Links, hex_token, same_code, Digests, authentication_context}
use ii_server_host.Lan.State.{
  Socket, Session, Lan, fresh, emit, put_session, without_code, member, signs, verifies, labelled,
  is_configured, opens_files, handled,
}
use ii_server_host.Lan.Host.{
  reject, is_refused_pair, is_taken, fails_proof, open_files, named_session, can_confirm,
  can_request, consume, pair, host_session, host_message,
}
use ii_server_host.Lan.Proofs.Offers.{HasOffer}

-- The session that an accepted device has is new, and this is what the state before says of it.
pub record IsCovered (digests : Digests) (m : Object) (now : ℕ) (b : Session) (st : Lan)
    : Type 0 where
  pub shown : is_empty st.qr ≡ false
  pub in_time : is_over st.offer.expires_at now ≡ false
  pub to_host : member (text "host") m ≡ st.offer.host_id
  pub code : member (text "code") m ≡ st.offer.code
  pub device : b.id ≡ member (text "peerId") m
  pub well_named : identifier b.id ≡ true
  pub expected : (is_empty st.expected_peer ≡ true) ⊎ (st.expected_peer ≡ b.id)
  pub waits : is_empty st.expected_peer ≡ false → b.awaiting_approval ≡ true
  pub unpaired : b.paired ≡ false
  pub alone : is_taken b.id st.clients ≡ false
  pub proven :
      is_configured st ≡ true
      → verifies st.verifier
          (labelled
            (text "client")
            (authentication_context digests st.offer b.id (member (text "nonce") m)))
          (to_object (value (text "proof") m))
        ≡ true

-- What a step has left of the offer and of one session
pub record Used (s : Socket) (b : Session) (u : Lan) : Type 0 where
  pub found : Dict.find s u.clients ≡ some b
  pub hidden : u.qr ≡ []
  pub cleared : u.offer.code ≡ []

open_files-Used :
    (s t : Socket) (b : Session) (id : Text) (proof : Object) (answer : Option Object) (u : Lan)
    → Used s b u
    → Used s b (open_files t id proof answer u)
unfolding open_files reject emit
open_files-Used s t b id proof answer u h =
    let same : (v : Lan)
        → v.clients ≡ u.clients
        → v.qr ≡ u.qr
        → v.offer.code ≡ u.offer.code
        → Used s b v =
      λ v c q o. record { found = rw c h.found; hidden = q ∙ h.hidden; cleared = o ∙ h.cleared } in
    if_rule (Used s b) (not (opens_files (handled answer))) (λ _. same _ refl refl refl)
      (λ _. same _ refl refl refl)

refused_facts :
    (m : Object) (now : ℕ) (st : Lan)
    → is_refused_pair m now st ≡ false
    → (is_empty st.qr ≡ false)
      × (is_over st.offer.expires_at now ≡ false)
      × (eq (member (text "host") m) st.offer.host_id ≡ true)
      × (same_code (member (text "code") m) st.offer.code ≡ true)
      × (identifier (member (text "peerId") m) ≡ true)
      × ((is_empty st.expected_peer ≡ true)
          ⊎ (eq st.expected_peer (member (text "peerId") m) ≡ true))
unfolding is_refused_pair
refused_facts m now st h = (
  ground (arith, h),
  ground (arith, h),
  ground (arith, h),
  ground (arith, h),
  ground (arith, h),
  ground (arith, h),
)

proof_facts :
    (m : Object) (context : Bytes) (st : Lan)
    → fails_proof m context st ≡ false
    → is_configured st ≡ true
    → verifies st.verifier (labelled (text "client") context) (to_object (value (text "proof") m))
      ≡ true
unfolding fails_proof
proof_facts m context st h c = ground (arith, h, c)

module _ (digests : Digests) where
  consume-Used :
      (s : Socket) (m : Object) (now : ℕ) (a : Session) (proof : Object) (answer : Option Object)
      (st : Lan)
      → Used s
          (named_session m now (not (is_empty st.expected_peer)) a)
          (consume digests s m now a proof answer st)
  unfolding consume put_session emit without_code
  consume-Used s m now a proof answer st =
      let discovered = not (is_empty st.expected_peer) in
      let new = named_session m now discovered a in
      let found = Dict.find-insert_self s new st.clients in
      if_rule (Used s new) discovered (λ _. record { found = found; hidden = refl; cleared = refl })
        (λ _.
          open_files-Used s s new _ proof answer _
            (record { found = found; hidden = refl; cleared = refl }))

  -- A message that passes every test is covered.
  covered :
      (m : Object) (now : ℕ) (a : Session) (st : Lan)
      → HasOffer st
      → a.paired ≡ false
      → is_refused_pair m now st ≡ false
      → is_taken (member (text "peerId") m) st.clients ≡ false
      → fails_proof m
          (authentication_context digests st.offer
            (member (text "peerId") m)
            (member (text "nonce") m))
          st
        ≡ false
      → IsCovered digests m now (named_session m now (not (is_empty st.expected_peer)) a) st
  unfolding named_session
  covered m now a st h un fresh free proves =
      let id = member (text "peerId") m in
      let facts = refused_facts m now st fresh in
      let token : hex_token st.offer.code ≡ true = ground (arith, h.offered, facts.0) in
      record {
        shown = facts.0;
        in_time = facts.1;
        to_host = (eq_iff (member (text "host") m) st.offer.host_id).0 facts.2;
        code = (same_code_exact (member (text "code") m) st.offer.code token).0 facts.3;
        device = refl;
        well_named = facts.4;
        expected = elim facts.5 [ inl n ↦ inl n | inr y ↦ inr ((eq_iff st.expected_peer id).0 y) ];
        waits = λ n. ground (arith, n);
        unpaired = un;
        alone = free;
        proven = proof_facts m _ st proves;
      }

  -- A `pair` message is covered and consumes the offer, or the sender stays without an identity.
  record Outcome (s : Socket) (m : Object) (now : ℕ) (a : Session) (st u : Lan) : Type 0 where
    outcome :
        ((b : Session) × IsCovered digests m now b st × Used s b u)
        ⊎ ((b : Session) × (Dict.find s u.clients ≡ some b) × (b.id ≡ a.id))

  -- A rejection leaves the sender without an identity.
  reject-Outcome :
      (s : Socket) (m : Object) (now : ℕ) (a b : Session) (message : Text) (st u : Lan)
      → Dict.find s u.clients ≡ some b
      → b.id ≡ a.id
      → Outcome s m now a st (reject s message u)
  unfolding reject emit
  reject-Outcome s m now a b message st u e same = record { outcome = inr (b, e, same) }

  -- The session of an accepted device, noted with what was authenticated
  abbrev known_session : Object → Session → Lan → Session
  known_session m a st = record a {
    authentication =
        authentication_context digests st.offer (member (text "peerId") m)
          (member (text "nonce") m);
  }

  accepted-Outcome :
      (s : Socket) (m : Object) (now : ℕ) (a : Session) (proof : Object) (answer : Option Object)
      (st : Lan)
      → HasOffer st
      → a.paired ≡ false
      → is_refused_pair m now st ≡ false
      → is_taken (member (text "peerId") m) st.clients ≡ false
      → fails_proof m
          (authentication_context digests st.offer
            (member (text "peerId") m)
            (member (text "nonce") m))
          st
        ≡ false
      → Outcome s m now a st (
          consume digests s m now
            (known_session m a st)
            proof
            answer
            (put_session s (known_session m a st) st))
  unfolding put_session
  accepted-Outcome s m now a proof answer st h un fresh free proves =
      let known = known_session m a st in
      record {
        outcome = inl (
          named_session m now (not (is_empty st.expected_peer)) known,
          covered m now known st h un fresh free proves,
          consume-Used s m now known proof answer (put_session s known st),
        );
      }

  pair_cases :
      (s : Socket) (m : Object) (now : ℕ) (a : Session) (answer : Option Object) (st : Lan)
      → HasOffer st
      → Dict.find s st.clients ≡ some a
      → a.paired ≡ false
      → Outcome s m now a st (pair digests s m now a answer st)
  unfolding pair
  pair_cases s m now a answer st h e un =
      let id = member (text "peerId") m in
      let context = authentication_context digests st.offer id (member (text "nonce") m) in
      let proof = signs st.signer (labelled (text "host") context) in
      let known : Session = record a { authentication = context } in
      let P : Lan → Type 0 = λ u. Outcome s m now a st u in
      let kept = put_session s known st in
      let found : Dict.find s kept.clients ≡ some known =
        unfold put_session in Dict.find-insert_self s known st.clients in
      if_rule P (is_refused_pair m now st) (λ _. reject-Outcome s m now a a _ st st e refl)
        λ fresh.
          if_rule P (is_taken id st.clients) (λ _. reject-Outcome s m now a a _ st st e refl)
            λ free.
              if_rule P (fails_proof m context st)
                (λ _. reject-Outcome s m now a known _ st kept found refl)
                λ proves.
                  if_rule P (is_some st.signer && is_null_object proof)
                    (λ _. reject-Outcome s m now a known _ st kept found refl)
                    (λ _. accepted-Outcome s m now a proof answer st h un fresh free proves)

  host_message-Outcome :
      (s : Socket) (m : Object) (now : ℕ) (a : Session) (answer : Option Object) (st : Lan)
      → HasOffer st
      → Dict.find s st.clients ≡ some a
      → a.paired ≡ false
      → is_empty a.id ≡ true
      → Outcome s m now a st (host_message digests s m now answer st)
  unfolding host_message host_session can_confirm can_request
  host_message-Outcome s m now a answer st h e un unnamed =
      let type = member (text "type") m in
      let P : Lan → Type 0 = λ u. Outcome s m now a st u in
      rw e (
        if_rule P (eq type (text "pair") && is_empty a.id)
          (λ _. pair_cases s m now a answer st h e un)
          λ _.
            if_rule P (eq type (text "confirm") && can_confirm a now)
              (λ y. absurd (ground (arith, y, unnamed)))
              λ _.
                if_rule P (eq type (text "request") && can_request m a)
                  (λ y. absurd (ground (arith, y, un)))
                  (λ _. reject-Outcome s m now a a _ st st e refl))

  -- In a state that is reached, a socket that gets an identity has used the offer up.
  pub named-Used :
      (links : Links) (s : Socket) (m : Object) (now : ℕ) (a b : Session) (answer : Option Object)
      {st : Lan}
      → Reached links digests st
      → Dict.find s st.clients ≡ some a
      → is_empty a.id ≡ true
      → Dict.find s (host_message digests s m now answer st).clients ≡ some b
      → is_empty b.id ≡ false
      → IsCovered digests m now b st × Used s b (host_message digests s m now answer st)
  named-Used links s m now a b answer {st} r e unnamed f named =
      let safe = Reached-IsSafe links digests r in
      let un = unnamed_unpaired a (safe.host.table.sound s a e) unnamed in
      elim (host_message-Outcome s m now a answer st safe.offer e un unnamed).outcome [
        | inl (c, covers, used) ↦
            let same = some-injective c b (sym used.found ∙ f) in
            (rw (← same) covers, rw (← same) used)
        | inr (c, found, same) ↦
            let unnamed_c : is_empty c.id ≡ true = rw same unnamed in
            absurd (cc (named, some-injective c b (sym found ∙ f)))
      ]

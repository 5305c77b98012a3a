-- ===== src/Relay/Proofs/Claims.antt =====
-- A pairing is between two peers of one account, and an offer is good for one claim.
use mathlib.Core.Option.{some-injective}
use ii_server_host.Prelude.Dict
use ii_server_host.Prelude.{
  ==_iff, Bool-cases, Option-cases, ℕ, ◌+◌, ◌≤◌, ◌<◌, min, ◌≡◌, refl, sym, ap, ◌∙◌, ◌⊎◌, inl, inr,
  false≢true, true, none, some, [], arith,
}
use ii_server_host.Prelude.Text.{Text, Bytes, text, eq_refl, to_latin1}
use ii_server_host.Prelude.Dict.{nat_eq, text_eq, Dict}
use ii_server_host.Json.{Object}
use ii_server_host.Relay.State.{Services, Socket, Offer, Pair, Relay, emit, active, target, member}
use ii_server_host.Relay.Pairing.{
  pairing, without_offer, cancel_pairing, is_target, pairing_error, may_claim, claim, pair_claim,
}
use ii_server_host.Relay.Proofs.Isolation.{IsHostFor, target_sound}

found_insert : (k : Text) (p : Pair) (d : Dict Text Pair) → Dict.find k (Dict.insert k p d) ≡ some p
found_insert k p d = ground (arith, Dict.find-insert k k p d, eq_refl k)

module _ (services : Services) where
  open services use {hash}

  -- The offer that a claim's code names.
  abbrev pub claimed_hash : Object → Bytes
  claimed_hash m = hash (to_latin1 (member (text "code") m))

  -- A claim goes through with an offer that passes, or it leaves every table as it was.
  claim_cases :
      (s : Socket) (id : Text) (m : Object) (now : ℕ) (key : Text) (st : Relay)
      → ((o : Offer) × (Dict.find (claimed_hash m) st.offers ≡ some o)
          × (may_claim services s m now o st ≡ true)
          × (pair_claim services s id m now key st
              ≡ claim services s id now key (claimed_hash m) o st))
        ⊎ (pair_claim services s id m now key st
            ≡ pairing_error s id "pairing_invalid_or_expired" st)
  unfolding pair_claim
  claim_cases s id m now key st = elim (Option-cases (Dict.find (claimed_hash m) st.offers)) [
    | inl e ↦ inr (rw e)
    | inr (o, e) ↦ elim (Bool-cases (may_claim services s m now o st)) [
      | inl y ↦ inl (o, e, y, rw (e, y))
      | inr n ↦ inr (rw (e, n))
    ]
  ]

  last_test :
      (s : Socket) (m : Object) (now : ℕ) (o : Offer) (st : Relay)
      → may_claim services s m now o st ≡ true
      → is_target (target st now s (member (text "host") m)) o.host ≡ true
  unfolding may_claim
  last_test s m now o st h = ground (arith, h)

  may_claim_facts :
      (s : Socket) (m : Object) (now : ℕ) (o : Offer) (st : Relay)
      → may_claim services s m now o st ≡ true
      → (now < o.expires)
        × (active st now o.host ≡ true)
        × (target st now s (member (text "host") m) ≡ some o.host)
  unfolding may_claim
  may_claim_facts s m now o st h =
      let id = member (text "host") m in
      elim (Option-cases (target st now s id)) [
        | inl e ↦ absurd (false≢true (rw e at (last_test s m now o st h)))
        | inr (g, e) ↦
            let same = (==_iff g o.host).0 (rw e at (last_test s m now o st h)) in
            (ground (arith, h), ground (arith, h), e ∙ ap some same)
      ]

  pairs-claim :
      (s : Socket) (id : Text) (now : ℕ) (key : Text) (hashed : Bytes) (o : Offer) (st : Relay)
      → (claim services s id now key hashed o st).pairs
        ≡ Dict.insert key
            (record {
              host = o.host;
              client = s;
              host_request = o.request;
              client_request = id;
              expires = min (now + 15000) o.expires;
            })
            (without_offer hashed (cancel_pairing s [] now st)).pairs
  unfolding claim pairing emit
  pairs-claim s id now key hashed o st = refl

  offers-claim :
      (s : Socket) (id : Text) (now : ℕ) (key : Text) (hashed : Bytes) (o : Offer) (st : Relay)
      → Dict.find hashed (claim services s id now key hashed o st).offers ≡ none
  unfolding claim pairing emit without_offer
  offers-claim s id now key hashed o st =
      Dict.not-find-remove hashed (cancel_pairing s [] now st).offers

  -- A pair that a claim makes under a new key joins the claimer to a live host of the claimer's own
  -- account and service, lasts fifteen seconds at most and no longer than the offer, which was
  -- still open.
  pub claim_pairs_own_account :
      (s : Socket) (id : Text) (m : Object) (now : ℕ) (key : Text) (st : Relay) (p : Pair)
      → Dict.find key st.pairs ≡ none
      → Dict.find key (pair_claim services s id m now key st).pairs ≡ some p
      → (p.client ≡ s)
        × IsHostFor st now s (member (text "host") m) p.host
        × (p.expires ≤ now + 15000)
        × ((o : Offer) × (Dict.find (claimed_hash m) st.offers ≡ some o)
            × (o.host ≡ p.host)
            × (p.expires ≤ o.expires)
            × (now < o.expires))
  unfolding pairing emit
  claim_pairs_own_account s id m now key st p new h = elim (claim_cases s id m now key st) [
    | inl (o, e, may, done) ↦
        let hashed = claimed_hash m in
        let made = rw (done, pairs-claim s id now key hashed o st) at h in
        let facts = may_claim_facts s m now o st may in
        let expires = min (now + 15000) o.expires in
        let pair : Pair = record {
          host = o.host;
          client = s;
          host_request = o.request;
          client_request = id;
          expires = expires;
        } in
        let cleared = (without_offer hashed (cancel_pairing s [] now st)).pairs in
        let same : pair ≡ p = some-injective _ _ (sym (found_insert key pair cleared) ∙ made) in
        rw (← same) (
          refl,
          target_sound st now s (member (text "host") m) o.host facts.2,
          omega arith,
          (o, e, refl, omega arith, facts.0),
        )
    | inr refused ↦ absurd (cc (new, rw refused at h))
  ]

  -- A claim that has made a pair under a new key uses its offer up: whoever claims the same code
  -- next is refused, and nothing else happens.
  pub claim_once :
      (s : Socket) (id : Text) (m : Object) (now : ℕ) (key : Text) (st : Relay) (p : Pair)
      (s' : Socket) (id' : Text) (m' : Object) (now' : ℕ) (key' : Text)
      → Dict.find key st.pairs ≡ none
      → Dict.find key (pair_claim services s id m now key st).pairs ≡ some p
      → member (text "code") m' ≡ member (text "code") m
      → pair_claim services s' id' m' now' key' (pair_claim services s id m now key st)
        ≡ pairing_error s' id' "pairing_invalid_or_expired" (pair_claim services s id m now key st)
  unfolding pairing emit
  claim_once s id m now key st p s' id' m' now' key' new h same =
      elim (claim_cases s id m now key st) [
        | inl (o, e, may, done) ↦
            rw done (refused_without _ (rw (same, claimed_hash) (offers-claim s id now key _ o st)))
        | inr refused ↦ absurd (cc (new, rw refused at h))
      ]
    where
      refused_without :
          (u : Relay)
          → Dict.find (claimed_hash m') u.offers ≡ none
          → pair_claim services s' id' m' now' key' u
            ≡ pairing_error s' id' "pairing_invalid_or_expired" u
      refused_without u n = unfold pair_claim in rw n

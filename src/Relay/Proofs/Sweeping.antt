-- ===== src/Relay/Proofs/Sweeping.antt =====
-- What the timer leaves: nothing that has expired, and no offer or pair of a lapsed session.
use ii_server_host.Prelude.Dict
use ii_server_host.Prelude.{
  ltb, leb, Bool-cases, Option-cases, ℕ, ◌≤◌, ◌<◌, ◌≡◌, refl, sym, ap, ◌∙◌, inl, inr, true, ◌||◌,
  not, some, arith,
}
use ii_server_host.Prelude.Text.{Text, Bytes, text}
use ii_server_host.Prelude.Dict.{nat_eq, text_eq, Dict}
use ii_server_host.Json.{end}
use ii_server_host.Relay.State.{
  Socket, Route, Offer, Pair, Relay, exists_object, emit, active, each,
}
use ii_server_host.Relay.Pairing.{without_offer}
use ii_server_host.Relay.Events.{expire_offer, expire_pair, check_session, expire_route, sweep}
use ii_server_host.Relay.Proofs.Shrinks.{
  each_keeps, each_shrinks, each_clears, Shrinks, Shrinks-refl, each-Shrinks, tables-pairing_if,
  without_offer-Shrinks, finish_pair-Shrinks,
}
use ii_server_host.Relay.Proofs.Removal.{finish_pair_consumes}
use mathlib.Core.Option.{some-injective}

active_of_sessions :
    (st u : Relay) (now : ℕ) (s : Socket)
    → u.sessions ≡ st.sessions
    → active u now s ≡ true
    → active st now s ≡ true
unfolding active
active_of_sessions st u now s e h = rw e at h

abbrev pub OfferOpen : Relay → ℕ → Offer → Type 0
OfferOpen st now o = (now < o.expires) × (active st now o.host ≡ true)

abbrev pub PairOpen : Relay → ℕ → Pair → Type 0
PairOpen st now p =
    (now < p.expires) × (active st now p.host ≡ true) × (active st now p.client ≡ true)

expire_offer-Shrinks :
    (now : ℕ) (hash : Bytes) (st : Relay) → Shrinks st.tables (expire_offer now hash st).tables
unfolding expire_offer
expire_offer-Shrinks now hash st = elim (Option-cases (Dict.find hash st.offers)) [
  | inl e ↦ rw e (Shrinks-refl st.tables)
  | inr (o, e) ↦ elim (Bool-cases (leb o.expires now || not (active st now o.host))) [
    | inl y ↦
        rw (e, y, tables-pairing_if o.host o.request (text "expired") end (without_offer hash st))
          (without_offer-Shrinks hash st)
    | inr n ↦ rw (e, n) (Shrinks-refl st.tables)
  ]
]

expire_pair-Shrinks :
    (now : ℕ) (id : Text) (st : Relay) → Shrinks st.tables (expire_pair now id st).tables
unfolding expire_pair
expire_pair-Shrinks now id st = elim (Option-cases (Dict.find id st.pairs)) [
  | inl e ↦ rw e (Shrinks-refl st.tables)
  | inr (p, e) ↦
      elim (Bool-cases
        (leb p.expires now || not (active st now p.host) || not (active st now p.client))) [
          | inl y ↦ rw (e, y) (finish_pair-Shrinks id (text "expired") now st)
          | inr n ↦ rw (e, n) (Shrinks-refl st.tables)
        ]
]

expire_offer_hit :
    (now : ℕ) (hash : Bytes) (st : Relay) (o : Offer)
    → Dict.find hash (expire_offer now hash st).offers ≡ some o
    → OfferOpen st now o
unfolding expire_offer without_offer
expire_offer_hit now hash st o h = elim (Option-cases (Dict.find hash st.offers)) [
  | inl e ↦ absurd (cc (e, rw e at h))
  | inr (q, e) ↦ elim (Bool-cases (leb q.expires now || not (active st now q.host))) [
    | inl y ↦
        let left =
          rw (e, y, tables-pairing_if q.host q.request (text "expired") end (without_offer hash st))
            at h in
        absurd (cc (left, Dict.not-find-remove hash st.offers))
    | inr n ↦
        let same = some-injective _ _ (sym e ∙ rw (e, n) at h) in rw (← same) (ground (arith, n))
  ]
]

expire_pair_hit :
    (now : ℕ) (id : Text) (st : Relay) (p : Pair)
    → Dict.find id (expire_pair now id st).pairs ≡ some p
    → PairOpen st now p
unfolding expire_pair
expire_pair_hit now id st p h = elim (Option-cases (Dict.find id st.pairs)) [
  | inl e ↦ absurd (cc (e, rw e at h))
  | inr (q, e) ↦
      elim (Bool-cases
        (leb q.expires now || not (active st now q.host) || not (active st now q.client))) [
          | inl y ↦ absurd (cc (finish_pair_consumes id (text "expired") now st, rw (e, y) at h))
          | inr n ↦
              let same = some-injective _ _ (sym e ∙ rw (e, n) at h) in
              rw (← same) (ground (arith, n))
        ]
]

expire_route_hit :
    (now : ℕ) (id : Text) (st : Relay) (r : Route)
    → Dict.find id (expire_route now id st).routes ≡ some r
    → now ≤ r.expires
unfolding expire_route emit
expire_route_hit now id st r h = elim (Option-cases (Dict.find id st.routes)) [
  | inl e ↦ absurd (cc (e, rw e at h))
  | inr (q, e) ↦ ground (arith, e, h, Dict.not-find-remove id st.routes)
]

expire_route_others :
    (now : ℕ) (id : Text) (st : Relay)
    → ((expire_route now id st).offers ≡ st.offers)
      × ((expire_route now id st).pairs ≡ st.pairs)
      × ((k : Text) (r : Route)
          → Dict.find k (expire_route now id st).routes ≡ some r
          → Dict.find k st.routes ≡ some r)
unfolding expire_route emit
expire_route_others now id st = elim (Option-cases (Dict.find id st.routes)) [
  | inl e ↦ rw e (refl, refl, λ k r h. h)
  | inr (q, e) ↦ elim (Bool-cases (ltb q.expires now)) [
    | inl y ↦ elim (Bool-cases (exists_object st q.client)) [
      | inl here ↦ rw (e, y, here) (refl, refl, λ k r h. Dict.find_of_remove id k st.routes r h)
      | inr gone ↦ rw (e, y, gone) (refl, refl, λ k r h. Dict.find_of_remove id k st.routes r h)
    ]
    | inr n ↦ rw (e, n) (refl, refl, λ k r h. h)
  ]
]

tables-check_session :
    (now : ℕ) (s : Socket) (st : Relay) → (check_session now s st).tables ≡ st.tables
unfolding check_session emit
tables-check_session now s st = ground arith

-- After the timer, every offer is open and its host active, every pair is open and both its sides
-- active, and no route is past its time, whatever the tables held before.
pub record Swept (st u : Relay) (now : ℕ) : Type 0 where
  pub offers : (k : Bytes) (o : Offer) → Dict.find k u.offers ≡ some o → OfferOpen st now o
  pub pairs : (k : Text) (p : Pair) → Dict.find k u.pairs ≡ some p → PairOpen st now p
  pub routes : (k : Text) (r : Route) → Dict.find k u.routes ≡ some r → now ≤ r.expires

-- After the timer, every offer is open and its host active, every pair is open and both its sides
-- active, and no route is past its time, whatever the tables held before.
pub sweep-Swept : (now : ℕ) (st : Relay) → Swept st (sweep now st) now
unfolding sweep
sweep-Swept now st = record {
  offers = λ k o h.
      offers_open k o (b_shrinks.offers k o (rw (last.0 ∙ ap (λ t. t.offers) checked) at h));
  pairs = λ k p h. pairs_open k p (rw (last.1 ∙ ap (λ t. t.pairs) checked) at h);
  routes = λ k r h. routes_open k r h;
}
  where
    a : Relay
    a = each (expire_offer now) (Dict.keys st.offers) st

    b : Relay
    b = each (expire_pair now) (Dict.keys a.pairs) a

    c : Relay
    c = each (check_session now) (Dict.keys b.sessions) b

    d : Relay
    d = each (expire_route now) (Dict.keys c.routes) c

    last : (d.offers ≡ c.offers) × (d.pairs ≡ c.pairs)
    last =
        each_keeps (λ (u : Relay). (u.offers ≡ c.offers) × (u.pairs ≡ c.pairs)) (expire_route now)
          (Dict.keys c.routes) c
          (λ id u h.
            ((expire_route_others now id u).0 ∙ h.0, (expire_route_others now id u).1 ∙ h.1))
          (refl, refl)

    checked : c.tables ≡ b.tables
    checked =
        each_keeps (λ (u : Relay). u.tables ≡ b.tables) (check_session now) (Dict.keys b.sessions) b
          (λ s u h. tables-check_session now s u ∙ h) refl

    a_shrinks : Shrinks st.tables a.tables
    a_shrinks = each-Shrinks (expire_offer now) (Dict.keys st.offers) st (expire_offer-Shrinks now)

    b_shrinks : Shrinks a.tables b.tables
    b_shrinks = each-Shrinks (expire_pair now) (Dict.keys a.pairs) a (expire_pair-Shrinks now)

    offers_open : (k : Bytes) (o : Offer) → Dict.find k a.offers ≡ some o → OfferOpen st now o
    offers_open k o h =
        each_clears (λ u. u.offers) (expire_offer now) (λ u. u.sessions ≡ st.sessions)
          (OfferOpen st now) (λ j u i. (expire_offer-Shrinks now j u).sessions ∙ i)
          (λ j u. (expire_offer-Shrinks now j u).offers)
          (λ j u q i hit.
            let facts = expire_offer_hit now j u q hit in
            (facts.0, active_of_sessions st u now q.host i facts.1))
          (Dict.keys st.offers) st k o refl
          (Dict.listed-keys k st.offers o (a_shrinks.offers k o h)) h

    pairs_open : (k : Text) (p : Pair) → Dict.find k b.pairs ≡ some p → PairOpen st now p
    pairs_open k p h =
        each_clears (λ u. u.pairs) (expire_pair now) (λ u. u.sessions ≡ st.sessions)
          (PairOpen st now) (λ j u i. (expire_pair-Shrinks now j u).sessions ∙ i)
          (λ j u. (expire_pair-Shrinks now j u).pairs)
          (λ j u q i hit.
            let facts = expire_pair_hit now j u q hit in
            (
              facts.0,
              active_of_sessions st u now q.host i facts.1,
              active_of_sessions st u now q.client i facts.2,
            ))
          (Dict.keys a.pairs) a k p a_shrinks.sessions
          (Dict.listed-keys k a.pairs p (b_shrinks.pairs k p h)) h

    routes_open : (k : Text) (r : Route) → Dict.find k d.routes ≡ some r → now ≤ r.expires
    routes_open k r h =
        each_clears (λ u. u.routes) (expire_route now) (λ u. Unit {0}) (λ q. now ≤ q.expires)
          (λ j u i. i) (λ j u. (expire_route_others now j u).2)
          (λ j u q i hit. expire_route_hit now j u q hit) (Dict.keys c.routes) c k r tt
          (Dict.listed-keys k c.routes r (
            each_shrinks (λ u. u.routes) (expire_route now) (λ u. Unit {0}) (λ q. now ≤ q.expires)
              (λ j u i. i) (λ j u. (expire_route_others now j u).2)
              (λ j u q i hit. expire_route_hit now j u q hit) (Dict.keys c.routes) c k r h))
          h

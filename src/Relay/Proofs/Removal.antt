-- ===== src/Relay/Proofs/Removal.antt =====
-- What `cancelPairing` and `remove` leave behind: nothing of the socket.
use ii_server_host.Prelude.{
  ◌==◌, Bool-cases, Option-cases, ℕ, ◌≡◌, refl, sym, ◌∙◌, ◌≢◌, ◌⊎◌, inl, inr, true, false, ◌||◌,
  none, some, List, [], ◌∷◌, arith,
}
use ii_server_host.Prelude.Text.{Text, Bytes, text, eq, eq_sound}
use ii_server_host.Prelude.Dict.{nat_eq, text_eq, Dict}
use ii_server_host.Prelude.Dict
use ii_server_host.Relay.State.{Socket, Route, Offer, Pair, Tables, Relay, emit, each}
use ii_server_host.Relay.Pairing.{
  pairing, without_pair, without_offer, finish_pair, offer_matches, pair_matches, cancel_offer,
  cancel_pair, cancel_pairing,
}
use ii_server_host.Relay.Events
use ii_server_host.Relay.Events.{drop_route}
use ii_server_host.Relay.Events
use ii_server_host.Relay.Proofs.Known.{Has, Known, Known-Shrinks, tables-changed}
use ii_server_host.Relay.Proofs.Shrinks.{
  each-Shrinks, tables-notify_pair, cancel_offer-Shrinks, cancel_pair-Shrinks,
  cancel_pairing-Shrinks,
}

-- One round takes out the offer under its key, if it is the socket's.
cancel_offer_clears :
    (s : Socket) (hash : Bytes) (st : Relay) (o : Offer)
    → Dict.find hash (cancel_offer s [] hash st).offers ≡ some o
    → o.host ≢ s
unfolding cancel_offer pairing emit without_offer offer_matches
cancel_offer_clears s hash st o h e = ground (arith, Dict.not-find-remove hash st.offers)

offers_cleared :
    (s : Socket) (ks : List Bytes) (st : Relay) (k : Bytes) (o : Offer)
    → Dict.listed k ks ≡ true
    → Dict.find k (each (cancel_offer s []) ks st).offers ≡ some o
    → o.host ≢ s
unfolding each
offers_cleared s [] st k o l h = cc
offers_cleared s (j ∷ js) st k o l h = elim (Bool-cases (eq j k)) [
  | inl same ↦
      let after = cancel_offer s [] j st in
      let kept =
        (each-Shrinks (cancel_offer s []) js after (cancel_offer-Shrinks s [])).offers k o h in
      cancel_offer_clears s j st o (rw (sym (eq_sound j k same)) at kept)
  | inr other ↦ offers_cleared s js (cancel_offer s [] j st) k o (rw other at l) h
]

pub finish_pair_consumes :
    (id status : Text) (now : ℕ) (st : Relay)
    → Dict.find id (finish_pair id status now st).pairs ≡ none
unfolding finish_pair without_pair
finish_pair_consumes id status now st = elim (Option-cases (Dict.find id st.pairs)) [
  | inl e ↦ rw e e
  | inr (p, e) ↦
      rw (e, tables-notify_pair id status now p (without_pair id st))
        (Dict.not-find-remove id st.pairs)
]

not_matches : (s : Socket) (p : Pair) → pair_matches s [] p ≡ false → (p.host ≢ s) × (p.client ≢ s)
unfolding pair_matches
not_matches s p h = grind arith

cancel_pair_clears :
    (s : Socket) (now : ℕ) (id : Text) (st : Relay) (p : Pair)
    → Dict.find id (cancel_pair s [] now id st).pairs ≡ some p
    → (p.host ≢ s) × (p.client ≢ s)
unfolding cancel_pair
cancel_pair_clears s now id st p h = elim (Option-cases (Dict.find id st.pairs)) [
  | inl e ↦ absurd (cc (e, rw e at h))
  | inr (q, e) ↦ elim (Bool-cases (pair_matches s [] q)) [
    | inl y ↦ absurd (cc (finish_pair_consumes id (text "cancelled") now st, rw (e, y) at h))
    | inr n ↦ not_matches s p (ground (arith, h, e, n))
  ]
]

pairs_cleared :
    (s : Socket) (now : ℕ) (ks : List Text) (st : Relay) (k : Text) (p : Pair)
    → Dict.listed k ks ≡ true
    → Dict.find k (each (cancel_pair s [] now) ks st).pairs ≡ some p
    → (p.host ≢ s) × (p.client ≢ s)
unfolding each
pairs_cleared s now [] st k p l h = cc
pairs_cleared s now (j ∷ js) st k p l h = elim (Bool-cases (eq j k)) [
  | inl same ↦
      let after = cancel_pair s [] now j st in
      let kept =
        (each-Shrinks (cancel_pair s [] now) js after (cancel_pair-Shrinks s [] now)).pairs k p h in
      cancel_pair_clears s now j st p (rw (sym (eq_sound j k same)) at kept)
  | inr other ↦ pairs_cleared s now js (cancel_pair s [] now j st) k p (rw other at l) h
]

-- After `cancelPairing` with no request, no offer and no pair is the socket's.
pub cancel_pairing_clears_offers :
    (s : Socket) (now : ℕ) (st : Relay) (k : Bytes) (o : Offer)
    → Dict.find k (cancel_pairing s [] now st).offers ≡ some o
    → o.host ≢ s
unfolding cancel_pairing
cancel_pairing_clears_offers s now st k o h =
    let without = each (cancel_offer s []) (Dict.keys st.offers) st in
    let first =
      each-Shrinks (cancel_offer s []) (Dict.keys st.offers) st (cancel_offer-Shrinks s []) in
    let second =
      each-Shrinks (cancel_pair s [] now) (Dict.keys without.pairs) without
        (cancel_pair-Shrinks s [] now) in
    let held = second.offers k o h in
    offers_cleared s (Dict.keys st.offers) st k o
      (Dict.listed-keys k st.offers o (first.offers k o held)) held

pub cancel_pairing_clears_pairs :
    (s : Socket) (now : ℕ) (st : Relay) (k : Text) (p : Pair)
    → Dict.find k (cancel_pairing s [] now st).pairs ≡ some p
    → (p.host ≢ s) × (p.client ≢ s)
unfolding cancel_pairing
cancel_pairing_clears_pairs s now st k p h =
    let without = each (cancel_offer s []) (Dict.keys st.offers) st in
    let shrinks =
      each-Shrinks (cancel_pair s [] now) (Dict.keys without.pairs) without
        (cancel_pair-Shrinks s [] now) in
    pairs_cleared s now (Dict.keys without.pairs) without k p
      (Dict.listed-keys k without.pairs p (shrinks.pairs k p h)) h

-- The loop over the routes in `remove` changes nothing but the routes, and only takes some out.
record Drops (t u : Tables) : Type 0 where
  sessions : u.sessions ≡ t.sessions
  objects : u.objects ≡ t.objects
  offers : u.offers ≡ t.offers
  pairs : u.pairs ≡ t.pairs
  routes : (k : Text) (r : Route) → Dict.find k u.routes ≡ some r → Dict.find k t.routes ≡ some r

removed_route : Text → Tables → Tables
removed_route key t = record t { routes = Dict.remove key t.routes }

-- Whatever is sent, the route is taken out, or it is not the socket's and stays.
drop_cases :
    (s : Socket) (key : Text) (st : Relay)
    → ((drop_route s key st).tables ≡ removed_route key st.tables)
      ⊎ (((drop_route s key st).tables ≡ st.tables)
          × ((r : Route) → Dict.find key st.routes ≡ some r → (r.client ≢ s) × (r.host ≢ s)))
unfolding drop_route removed_route emit
drop_cases s key st = elim (Option-cases (Dict.find key st.routes)) [
  | inl e ↦ inr (rw e refl, λ r h. absurd (cc (e, h)))
  | inr (r, e) ↦ elim (Bool-cases (r.client == s || r.host == s)) [
    | inl y ↦ inl (rw (e, y) (ground arith))
    | inr n ↦ inr (rw (e, n) refl, λ q h. ground (arith, n, e, h))
  ]
]

drop_route-Drops :
    (s : Socket) (key : Text) (st : Relay) → Drops st.tables (drop_route s key st).tables
unfolding removed_route
drop_route-Drops s key st = elim (drop_cases s key st) [
  | inl e ↦ rw e (record {
    sessions = refl;
    objects = refl;
    offers = refl;
    pairs = refl;
    routes = λ k r h. Dict.find_of_remove key k st.routes r h;
  })
  | inr (e, _) ↦
      rw e (record {
        sessions = refl;
        objects = refl;
        offers = refl;
        pairs = refl;
        routes = λ k r h. h;
      })
]

each-Drops :
    (s : Socket) (ks : List Text) (st : Relay) → Drops st.tables (each (drop_route s) ks st).tables
unfolding each
each-Drops s [] st = record {
  sessions = refl;
  objects = refl;
  offers = refl;
  pairs = refl;
  routes = λ k r h. h;
}
each-Drops s (k ∷ ks) st =
    let a = drop_route-Drops s k st in
    let b = each-Drops s ks (drop_route s k st) in
    record {
      sessions = b.sessions ∙ a.sessions;
      objects = b.objects ∙ a.objects;
      offers = b.offers ∙ a.offers;
      pairs = b.pairs ∙ a.pairs;
      routes = λ k r h. a.routes k r (b.routes k r h);
    }

drop_route_clears :
    (s : Socket) (key : Text) (st : Relay) (r : Route)
    → Dict.find key (drop_route s key st).routes ≡ some r
    → (r.client ≢ s) × (r.host ≢ s)
unfolding removed_route
drop_route_clears s key st r h = elim (drop_cases s key st) [
  | inl e ↦ absurd (cc (rw e at h, Dict.not-find-remove key st.routes))
  | inr (e, foreign) ↦ foreign r (rw e at h)
]

routes_cleared :
    (s : Socket) (ks : List Text) (st : Relay) (k : Text) (r : Route)
    → Dict.listed k ks ≡ true
    → Dict.find k (each (drop_route s) ks st).routes ≡ some r
    → (r.client ≢ s) × (r.host ≢ s)
unfolding each
routes_cleared s [] st k r l h = cc
routes_cleared s (j ∷ js) st k r l h = elim (Bool-cases (eq j k)) [
  | inl same ↦
      let kept = (each-Drops s js (drop_route s j st)).routes k r h in
      drop_route_clears s j st r (rw (sym (eq_sound j k same)) at kept)
  | inr other ↦ routes_cleared s js (drop_route s j st) k r (rw other at l) h
]

-- When a socket has disconnected, what is left of the tables still refers to sessions only, if it
-- did before.
pub remove-Known :
    (s : Socket) (now : ℕ) (st : Relay) → Known st.tables → Known (Events.remove s now st).tables
unfolding Events.remove emit
remove-Known s now st k =
    let cleared = cancel_pairing s [] now st in
    let known = Known-Shrinks k (cancel_pairing-Shrinks s [] now st) in
    let gone : Relay = record cleared {
      tables = record cleared.tables { sessions = Dict.remove s cleared.sessions };
    } in
    let ks = Dict.keys gone.routes in
    let dropped = each (drop_route s) ks gone in
    let d = each-Drops s ks gone in
    let free : (i : Text) (r : Route)
        → Dict.find i dropped.routes ≡ some r
        → (r.client ≢ s) × (r.host ≢ s) =
      λ i r h. routes_cleared s ks gone i r (Dict.listed-keys i gone.routes r (d.routes i r h)) h in
    let stays : (t : Socket) → t ≢ s → Has cleared.tables t → Has dropped.tables t =
      λ t n h. rw d.sessions (Dict.contains-remove s t cleared.sessions (λ e. n (sym e)) h) in
    rw tables-changed (record {
      route_client =
          λ i r h. stays r.client (free i r h).0 (known.route_client i r (d.routes i r h));
      route_host = λ i r h. stays r.host (free i r h).1 (known.route_host i r (d.routes i r h));
      offer_host = λ i o h.
          let held = rw d.offers at h in
          stays o.host (cancel_pairing_clears_offers s now st i o held) (known.offer_host i o held);
      pair_host = λ i p h.
          let held = rw d.pairs at h in
          stays p.host (cancel_pairing_clears_pairs s now st i p held).0 (known.pair_host i p held);
      pair_client = λ i p h.
          let held = rw d.pairs at h in
          stays p.client (cancel_pairing_clears_pairs s now st i p held).1
            (known.pair_client i p held);
      object = λ t h.
          rw d.objects
            (known.object t (Dict.contains_of_remove s t cleared.sessions (rw d.sessions at h)));
    })

-- A socket that has disconnected has no session.
pub not-has-remove :
    (s : Socket) (now : ℕ) (st : Relay) → Dict.find s (Events.remove s now st).sessions ≡ none
unfolding Events.remove emit
not-has-remove s now st =
    let cleared = cancel_pairing s [] now st in
    let gone : Relay = record cleared {
      tables = record cleared.tables { sessions = Dict.remove s cleared.sessions };
    } in
    rw (tables-changed, (each-Drops s (Dict.keys gone.routes) gone).sessions)
      (Dict.not-find-remove s cleared.sessions)

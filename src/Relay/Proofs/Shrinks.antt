-- ===== src/Relay/Proofs/Shrinks.antt =====
-- Operations that only take offers and pairs away.
use ii_server_host.Relay.Messages.{request}
use ii_server_host.Prelude.{
  Bool-cases, Option-cases, if_rule, ℕ, ◌≡◌, refl, sym, ◌∙◌, inl, inr, true, some, List, [], ◌∷◌,
  arith,
}
use ii_server_host.Prelude.Text.{Text, Bytes, text}
use ii_server_host.Prelude.Dict.{nat_eq, text_eq, Dict}
use ii_server_host.Prelude.Dict
use ii_server_host.Json.{Object}
use ii_server_host.Relay.State.{Socket, Offer, Pair, Tables, Relay, session_of, emit, each}
use ii_server_host.Relay.Pairing.{
  pairing, peer_details, pairing_if, without_pair, without_offer, notify_pair, finish_pair,
  offer_matches, pair_matches, cancel_offer, cancel_pair, cancel_pairing,
}

-- A property that the body of a loop keeps is kept by the loop.
pub each_keeps {ℓ κ ρ} :
    {A : Type ℓ} {S : Type κ} (P : S → Type ρ) (body : A → S → S) (xs : List A) (st : S)
    → ((a : A) (s : S) → P s → P (body a s))
    → P st
    → P (each body xs st)
unfolding each
each_keeps P body [] st keep h = h
each_keeps P body (x ∷ xs) st keep h = each_keeps P body xs (body x st) keep (keep x st h)

-- A loop over keys whose body leaves a good value, or none, under its key, and puts nothing in,
-- leaves good values only.
module _ {ℓ κ ρ σ} {K : Type ℓ} {V : Type κ} ⦃e : Dict.Eq K⦄ (view : Relay → Dict.Dict K V)
    (body : K → Relay → Relay) (Inv : Relay → Type ρ) (Good : V → Type σ)
    (keep : (j : K) (st : Relay) → Inv st → Inv (body j st))
    (shrink : (j : K) (st : Relay) (k : K) (v : V)
      → Dict.find k (view (body j st)) ≡ some v
      → Dict.find k (view st) ≡ some v)
    (hit : (j : K) (st : Relay) (v : V)
      → Inv st
      → Dict.find j (view (body j st)) ≡ some v
      → Good v) where
  pub each_shrinks :
      (ks : List K) (st : Relay) (k : K) (v : V)
      → Dict.find k (view (each body ks st)) ≡ some v
      → Dict.find k (view st) ≡ some v
  unfolding each
  each_shrinks [] st k v h = h
  each_shrinks (j ∷ js) st k v h = shrink j st k v (each_shrinks js (body j st) k v h)

  pub each_clears :
      (ks : List K) (st : Relay) (k : K) (v : V)
      → Inv st
      → Dict.listed k ks ≡ true
      → Dict.find k (view (each body ks st)) ≡ some v
      → Good v
  unfolding each
  each_clears [] st k v i l h = cc
  each_clears (j ∷ js) st k v i l h = elim (Bool-cases (e.beq j k)) [
    | inl same ↦
        let kept = each_shrinks js (body j st) k v h in
        hit j st v i (rw (sym ((e.beq_iff j k).0 same)) at kept)
    | inr other ↦ each_clears js (body j st) k v (keep j st i) (rw other at l) h
  ]

pub record Shrinks (t u : Tables) : Type 0 where
  pub sessions : u.sessions ≡ t.sessions
  pub objects : u.objects ≡ t.objects
  pub routes : u.routes ≡ t.routes
  pub offers :
      (k : Bytes) (o : Offer) → Dict.find k u.offers ≡ some o → Dict.find k t.offers ≡ some o
  pub pairs : (k : Text) (p : Pair) → Dict.find k u.pairs ≡ some p → Dict.find k t.pairs ≡ some p

pub Shrinks-refl : (t : Tables) → Shrinks t t
Shrinks-refl t = record {
  sessions = refl;
  objects = refl;
  routes = refl;
  offers = λ k o h. h;
  pairs = λ k p h. h;
}

pub Shrinks-trans : {t u v : Tables} → Shrinks t u → Shrinks u v → Shrinks t v
Shrinks-trans a b = record {
  sessions = b.sessions ∙ a.sessions;
  objects = b.objects ∙ a.objects;
  routes = b.routes ∙ a.routes;
  offers = λ k o h. a.offers k o (b.offers k o h);
  pairs = λ k p h. a.pairs k p (b.pairs k p h);
}

pub each-Shrinks {ℓ} :
    {A : Type ℓ} (body : A → Relay → Relay) (xs : List A) (st : Relay)
    → ((a : A) (s : Relay) → Shrinks s.tables (body a s).tables)
    → Shrinks st.tables (each body xs st).tables
each-Shrinks body xs st h =
    each_keeps (λ s. Shrinks st.tables s.tables) body xs st (λ a s k. Shrinks-trans k (h a s))
      (Shrinks-refl st.tables)

pub tables-pairing_if :
    (s : Socket) (id status : Text) (details : Object) (st : Relay)
    → (pairing_if s id status details st).tables ≡ st.tables
unfolding pairing_if pairing emit
tables-pairing_if s id status details st = ground arith

pub tables-notify_pair :
    (id status : Text) (now : ℕ) (p : Pair) (st : Relay)
    → (notify_pair id status now p st).tables ≡ st.tables
unfolding notify_pair
tables-notify_pair id status now p st =
    let for_host = peer_details id (session_of st now p.client) in
    let for_client = peer_details id (session_of st now p.host) in
    let told = pairing_if p.host p.host_request status for_host st in
    tables-pairing_if p.client p.client_request status for_client told
    ∙ tables-pairing_if p.host p.host_request status for_host st

pub without_pair-Shrinks : (id : Text) (st : Relay) → Shrinks st.tables (without_pair id st).tables
unfolding without_pair
without_pair-Shrinks id st = record {
  sessions = refl;
  objects = refl;
  routes = refl;
  offers = λ k o h. h;
  pairs = λ k p h. Dict.find_of_remove id k st.pairs p h;
}

pub without_offer-Shrinks :
    (hash : Bytes) (st : Relay) → Shrinks st.tables (without_offer hash st).tables
unfolding without_offer
without_offer-Shrinks hash st = record {
  sessions = refl;
  objects = refl;
  routes = refl;
  offers = λ k o h. Dict.find_of_remove hash k st.offers o h;
  pairs = λ k p h. h;
}

pub finish_pair-Shrinks :
    (id status : Text) (now : ℕ) (st : Relay)
    → Shrinks st.tables (finish_pair id status now st).tables
unfolding finish_pair
finish_pair-Shrinks id status now st = elim (Option-cases (Dict.find id st.pairs)) [
  | inl e ↦ rw e (Shrinks-refl st.tables)
  | inr (p, e) ↦
      rw (e, tables-notify_pair id status now p (without_pair id st)) (without_pair-Shrinks id st)
]

pub cancel_offer-Shrinks :
    (s : Socket) (request : Text) (hash : Bytes) (st : Relay)
    → Shrinks st.tables (cancel_offer s request hash st).tables
unfolding cancel_offer pairing emit
cancel_offer-Shrinks s request hash st = elim (Option-cases (Dict.find hash st.offers)) [
  | inl e ↦ rw e (Shrinks-refl st.tables)
  | inr (o, e) ↦ rw e (
      if_rule (λ (u : Relay). Shrinks st.tables u.tables) (offer_matches s request o)
        (λ y. without_offer-Shrinks hash st) (λ n. Shrinks-refl st.tables))
]

pub cancel_pair-Shrinks :
    (s : Socket) (request : Text) (now : ℕ) (id : Text) (st : Relay)
    → Shrinks st.tables (cancel_pair s request now id st).tables
unfolding cancel_pair
cancel_pair-Shrinks s request now id st = elim (Option-cases (Dict.find id st.pairs)) [
  | inl e ↦ rw e (Shrinks-refl st.tables)
  | inr (p, e) ↦ rw e (
      if_rule (λ (u : Relay). Shrinks st.tables u.tables) (pair_matches s request p)
        (λ y. finish_pair-Shrinks id (text "cancelled") now st) (λ n. Shrinks-refl st.tables))
]

pub cancel_pairing-Shrinks :
    (s : Socket) (request : Text) (now : ℕ) (st : Relay)
    → Shrinks st.tables (cancel_pairing s request now st).tables
unfolding cancel_pairing
cancel_pairing-Shrinks s request now st =
    let without = each (cancel_offer s request) (Dict.keys st.offers) st in
    Shrinks-trans
      (each-Shrinks (cancel_offer s request) (Dict.keys st.offers) st
        (cancel_offer-Shrinks s request))
      (each-Shrinks (cancel_pair s request now) (Dict.keys without.pairs) without
        (cancel_pair-Shrinks s request now))

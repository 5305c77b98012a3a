-- ===== src/Relay/Proofs/Known.antt =====
-- src/RelayServer.cpp: what it is for the route, offer and pair tables to refer only to sockets that
-- have a session.
use ii_server_host.Prelude.{◌==◌, any, ℕ, ◌≡◌, refl, ◌∙◌, true, some, List, [], ◌∷◌, arith}
use ii_server_host.Prelude.Text.{Text, Bytes}
use ii_server_host.Prelude.Dict.{nat_eq, text_eq, Dict}
use ii_server_host.Prelude.Dict
use ii_server_host.Relay.State.{
  Socket, Session, Route, Offer, Pair, Tables, Relay, emit, is_target_session, target_in,
}
use ii_server_host.Relay.Messages.{directory, changed}
use ii_server_host.Relay.Proofs.Shrinks.{each_keeps, Shrinks}

-- Has the socket a session?
abbrev pub Has : Tables → Socket → Type 0
Has t s = Dict.contains s t.sessions ≡ true

pub record Known (t : Tables) : Type 0 where
  pub route_client : (k : Text) (r : Route) → Dict.find k t.routes ≡ some r → Has t r.client
  pub route_host : (k : Text) (r : Route) → Dict.find k t.routes ≡ some r → Has t r.host
  pub offer_host : (k : Bytes) (o : Offer) → Dict.find k t.offers ≡ some o → Has t o.host
  pub pair_host : (k : Text) (p : Pair) → Dict.find k t.pairs ≡ some p → Has t p.host
  pub pair_client : (k : Text) (p : Pair) → Dict.find k t.pairs ≡ some p → Has t p.client
  pub object : (s : Socket) → Has t s → any (λ o. o == s) t.objects ≡ true

pub Known-Shrinks : {t u : Tables} → Known t → Shrinks t u → Known u
Known-Shrinks {t} {u} k s = record {
  route_client = λ i r h. rw s.sessions (k.route_client i r (rw s.routes at h));
  route_host = λ i r h. rw s.sessions (k.route_host i r (rw s.routes at h));
  offer_host = λ i o h. rw s.sessions (k.offer_host i o (s.offers i o h));
  pair_host = λ i p h. rw s.sessions (k.pair_host i p (s.pairs i p h));
  pair_client = λ i p h. rw s.sessions (k.pair_client i p (s.pairs i p h));
  object = λ i h. rw s.objects (k.object i (rw s.sessions at h));
}

pub target_in_sound :
    (source : Socket) (caller : Session) (now : ℕ) (id : Text) (d : Dict Socket Session)
    (ks : List Socket) (h : Socket)
    → target_in source caller now id d ks ≡ some h
    → is_target_session source caller now id h (Dict.find h d) ≡ true
unfolding target_in
target_in_sound source caller now id d [] h e = cc
target_in_sound source caller now id d (s ∷ rest) h e =
    ground (arith, target_in_sound source caller now id d rest h)

pub tables-directory : (now : ℕ) (s : Socket) (st : Relay) → (directory now s st).tables ≡ st.tables
unfolding directory emit
tables-directory now s st = ground arith

pub tables-changed : (now : ℕ) (st : Relay) → (changed now st).tables ≡ st.tables
unfolding changed
tables-changed now st =
    each_keeps (λ (u : Relay). u.tables ≡ st.tables) (directory now) (Dict.keys st.sessions) st
      (λ s u h. tables-directory now s u ∙ h) refl

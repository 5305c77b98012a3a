-- ===== src/Relay/Proofs/Isolation.antt =====
-- Who can reach whom: a target is a live host of the caller's own account and service, and every
-- such host can be reached.
use ii_server_host.Relay.Proofs.Known.{target_in_sound}
use ii_server_host.Prelude.Dict
use ii_server_host.Prelude.{
  Option-cases, is_some, ℕ, ◌≡◌, refl, sym, ap, ◌∙◌, ◌≢◌, inl, inr, false≢true, true, false, none,
  some, List, [], ◌∷◌, arith,
}
use ii_server_host.Prelude.Text.{Text, eq_iff}
use ii_server_host.Prelude.Dict.{nat_eq, text_eq, Dict}
use ii_server_host.Json.{Object, end, field, is_null_object}
use ii_server_host.Protocol.{live}
use ii_server_host.Relay.State.{
  Socket, Session, Relay, session_of, is_peer_host, is_target_session, target_in, target,
}

pub record IsHostFor (st : Relay) (now : ℕ) (s : Socket) (id : Text) (h : Socket) : Type 0 where
  pub session : Session
  pub found : Dict.find h st.sessions ≡ some session
  pub other : h ≢ s
  pub named : session.id ≡ id
  pub alive : live session.principal now ≡ true
  pub hosts : session.descriptor ≢ end
  pub same_account : session.principal.account_id ≡ (session_of st now s).principal.account_id
  pub same_service : session.service ≡ (session_of st now s).service

not_null : (o : Object) → o ≢ end → is_null_object o ≡ false
unfolding is_null_object
not_null end h = absurd (h refl)
not_null (field k v o) h = refl

test_of_IsHostFor :
    (st : Relay) (now : ℕ) (s : Socket) (id : Text) (h : Socket)
    → IsHostFor st now s id h
    → is_target_session s (session_of st now s) now id h (Dict.find h st.sessions) ≡ true
unfolding is_target_session is_peer_host is_null_object
test_of_IsHostFor st now s id h p =
    let caller = session_of st now s in
    let session = p.session in
    rw p.found (
      ground (
        arith,
        p.other,
        p.alive,
        not_null session.descriptor p.hosts,
        eq_iff session.id id,
        eq_iff session.principal.account_id caller.principal.account_id,
        eq_iff session.service caller.service,
      ))

facts_of_test :
    (st : Relay) (now : ℕ) (s : Socket) (id : Text) (h : Socket) (session : Session)
    → is_target_session s (session_of st now s) now id h (some session) ≡ true
    → (h ≢ s)
      × (session.id ≡ id)
      × (live session.principal now ≡ true)
      × (is_null_object session.descriptor ≡ false)
      × (session.principal.account_id ≡ (session_of st now s).principal.account_id)
      × (session.service ≡ (session_of st now s).service)
unfolding is_target_session is_peer_host
facts_of_test st now s id h session p =
    let caller = session_of st now s in
    ground (
      arith,
      p,
      eq_iff session.id id,
      eq_iff session.principal.account_id caller.principal.account_id,
      eq_iff session.service caller.service,
    )

IsHostFor-of_test :
    (st : Relay) (now : ℕ) (s : Socket) (id : Text) (h : Socket)
    → is_target_session s (session_of st now s) now id h (Dict.find h st.sessions) ≡ true
    → IsHostFor st now s id h
unfolding is_target_session is_peer_host is_null_object
IsHostFor-of_test st now s id h p = elim (Option-cases (Dict.find h st.sessions)) [
  | inl e ↦ absurd (false≢true (rw e at p))
  | inr (session, e) ↦
      let caller = session_of st now s in
      let q = facts_of_test st now s id h session (rw e at p) in
      record {
        session = session;
        found = e;
        other = q.0;
        named = q.1;
        alive = q.2;
        hosts = λ n. false≢true (sym q.3 ∙ ap is_null_object n);
        same_account = q.4;
        same_service = q.5;
      }
]

target_in_complete :
    (source : Socket) (caller : Session) (now : ℕ) (id : Text) (d : Dict Socket Session)
    (ks : List Socket) (h : Socket)
    → is_target_session source caller now id h (Dict.find h d) ≡ true
    → Dict.listed h ks ≡ true
    → is_some (target_in source caller now id d ks) ≡ true
unfolding target_in
target_in_complete source caller now id d [] h e l = cc
target_in_complete source caller now id d (k ∷ ks) h e l =
    ground (arith, target_in_complete source caller now id d ks h e)

-- The socket that `target` answers is a live host under the identity, in the caller's own account
-- and service, and not the caller itself.
pub target_sound :
    (st : Relay) (now : ℕ) (s : Socket) (id : Text) (h : Socket)
    → target st now s id ≡ some h
    → IsHostFor st now s id h
unfolding target
target_sound st now s id h e =
    IsHostFor-of_test st now s id h
      (target_in_sound s (session_of st now s) now id st.sessions (Dict.keys st.sessions) h e)

-- `target` answers no socket only if no session is such a host.
pub target_complete :
    (st : Relay) (now : ℕ) (s : Socket) (id : Text) (h : Socket)
    → IsHostFor st now s id h
    → target st now s id ≢ none
unfolding target
target_complete st now s id h p e =
    let found =
      target_in_complete s (session_of st now s) now id st.sessions (Dict.keys st.sessions) h
        (test_of_IsHostFor st now s id h p) (Dict.listed-keys h st.sessions p.session p.found) in
    false≢true (rw e at found)

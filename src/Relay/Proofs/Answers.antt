-- ===== src/Relay/Proofs/Answers.antt =====
-- The authenticator's answer, the answer to a routed request, and the limit on pairing attempts.
use ii_server_host.Relay.Pairing.{count_attempt, pairing_error, limited, pair_message}
use ii_server_host.Relay.Proofs.Shrinks.{cancel_pairing-Shrinks}
use ii_server_host.Prelude.Dict
use ii_server_host.Prelude.{
  lt→ltb, ==_iff, Bool-cases, empty_cases, ℕ, ◌+◌, ◌≤◌, ◌<◌, min, ◌≡◌, refl, ap, ◌∙◌, ◌≢◌, ◌⊎◌, inl,
  inr, true, false, ◌&&◌, some, [], ◌∷◌, arith,
}
use ii_server_host.Prelude.Text.{Text, text, eq, eq_iff, is_empty}
use ii_server_host.Prelude.Dict.{nat_eq, text_eq, Dict}
use ii_server_host.Json.{Object}
use ii_server_host.Protocol.{identifier, Principal, live}
use ii_server_host.Relay.State.{
  Services, Socket, Session, Route, Relay, nobody, session_of, exists_object, emit, set_session,
  active, member,
}
use ii_server_host.Relay.Messages.{respond}
use ii_server_host.Relay.Events.{is_refused, refuse, admit, authenticated}

-- A session keeps its account: the answer signs it in under the account it had, for a minute at
-- most, or signs it out.
pub data SignedIn (old : Session) (now : ℕ) (p q : Principal) : Type 0 where
  out : q ≡ nobody → SignedIn old now p q
  signed :
      q.account_id ≡ p.account_id
      → (old.principal.account_id ≡ []) ⊎ (q.account_id ≡ old.principal.account_id)
      → live q now ≡ true
      → q.expires_at ≤ now + 60000
      → SignedIn old now p q

is_empty_of_ne : (s : Text) → s ≢ [] → is_empty s ≡ false
is_empty_of_ne [] h = absurd (h refl)
is_empty_of_ne (x ∷ xs) h = refl

admitted :
    (old : Session) (now : ℕ) (p : Principal)
    → is_refused p old now ≡ false
    → SignedIn old now p
        (record { account_id = p.account_id; expires_at = min p.expires_at (now + 60000) })
unfolding is_refused live
admitted old now p h =
    signed refl (kept (empty_cases old.principal.account_id)) (ground (arith, h)) (omega arith)
  where
    kept :
        (old.principal.account_id ≡ []) ⊎ (old.principal.account_id ≢ [])
        → (old.principal.account_id ≡ []) ⊎ (p.account_id ≡ old.principal.account_id)
    kept (inl e) = inl e
    kept (inr n) = inr (
        ground (
          arith,
          h,
          is_empty_of_ne old.principal.account_id n,
          eq_iff p.account_id old.principal.account_id,
        ))

-- After the answer of the authenticator for a socket that has a session, its session is signed out
-- or has the answered account, which no earlier account of the session differs from, live now and
-- for one minute at most; no other session has changed.
pub authenticated-SignedIn :
    (s : Socket) (p : Principal) (now : ℕ) (st : Relay) (old : Session)
    → Dict.find s st.sessions ≡ some old
    → ((session : Session) × (Dict.find s (authenticated s p now st).sessions ≡ some session)
        × SignedIn old now p session.principal)
      × ((t : Socket)
          → t ≢ s
          → Dict.find t (authenticated s p now st).sessions ≡ Dict.find t st.sessions)
unfolding authenticated refuse admit emit
authenticated-SignedIn s p now st old h = elim (Bool-cases (is_refused p old now)) [
  | inl y ↦
      let session : Session = record old { authenticating = false } in
      let stored = set_session s session st in
      let kept = (cancel_pairing-Shrinks s [] now stored).sessions in
      let last : Session = record session { principal = nobody } in
      rw (h, y)
        (
          (last, Dict.find-insert_self s last _, out refl),
          λ t n.
              Dict.find-insert_ne s t last _ n
              ∙ ap (Dict.find t) kept
              ∙ Dict.find-insert_ne s t session st.sessions n,
        )
  | inr n ↦
      let expires = min p.expires_at (now + 60000) in
      let session : Session = record old {
        authenticating = false;
        principal = record { account_id = p.account_id; expires_at = expires };
      } in
      rw (h, n)
        (
          (session, Dict.find-insert_self s session st.sessions, admitted old now p n),
          λ t d. Dict.find-insert_ne s t session st.sessions d,
        )
]

-- A request that the host has answered is not answered again, whoever tries.
pub respond_once :
    (s : Socket) (m : Object) (now : ℕ) (st : Relay) (r : Route) (s' : Socket) (m' : Object)
    (now' : ℕ)
    → Dict.find (member (text "id") m) st.routes ≡ some r
    → r.host ≡ s
    → member (text "id") m' ≡ member (text "id") m
    → respond s' m' now' (respond s m now st) ≡ respond s m now st
unfolding respond emit
respond_once s m now st r s' m' now' found own same =
    elim (Bool-cases (exists_object st r.client && active st now r.client)) [
      | inl y ↦ rw (
        found,
        (==_iff r.host s).1 own,
        y,
        same,
        Dict.not-find-remove (member (text "id") m) st.routes,
      )
      | inr n ↦ rw (
        found,
        (==_iff r.host s).1 own,
        n,
        same,
        Dict.not-find-remove (member (text "id") m) st.routes,
      )
    ]

limited_over :
    (services : Services) (s : Socket) (type id : Text) (m : Object) (now : ℕ) (fresh : Text)
    (st : Relay)
    → 6 < (session_of st now s).pairing_attempts
    → limited services s type id m now fresh st ≡ pairing_error s id "pairing_rate_limited" st
unfolding limited
limited_over services s type id m now fresh st h = rw (lt→ltb 6 _ h)

count_again :
    (now : ℕ) (c : Session) (window : ℕ)
    → c.pairing_window ≡ some window
    → now < window + 30000
    → count_attempt now c ≡ record c { pairing_attempts = c.pairing_attempts + 1 }
unfolding count_attempt
count_again now c window e h = rw e (ground (arith, h))

session_of_found :
    (st : Relay) (now : ℕ) (s : Socket) (c : Session)
    → Dict.find s st.sessions ≡ some c
    → session_of st now s ≡ c
unfolding session_of
session_of_found st now s c e = rw e refl

not_confirm_or_cancel :
    (type : Text)
    → (type ≡ text "pair-offer") ⊎ (type ≡ text "pair-claim")
    → (eq type (text "pair-confirm") ≡ false) × (eq type (text "pair-cancel") ≡ false)
unfolding text eq
not_confirm_or_cancel type (inl e) = rw e (refl, refl)
not_confirm_or_cancel type (inr e) = rw e (refl, refl)

-- Within thirty seconds of its window's start, a session that has made six attempts makes no
-- seventh: an offer or a claim with a valid identifier is answered with an error, and only the
-- count of attempts changes.
pub rate_limit :
    (services : Services) (s : Socket) (m : Object) (now : ℕ) (fresh : Text) (st : Relay)
    (c : Session) (window : ℕ)
    → Dict.find s st.sessions ≡ some c
    → c.pairing_window ≡ some window
    → now < window + 30000
    → 6 ≤ c.pairing_attempts
    → identifier (member (text "id") m) ≡ true
    → (member (text "type") m ≡ text "pair-offer") ⊎ (member (text "type") m ≡ text "pair-claim")
    → pair_message services s m now fresh st
      ≡ pairing_error s
          (member (text "id") m)
          "pairing_rate_limited"
          (set_session s (record c { pairing_attempts = c.pairing_attempts + 1 }) st)
unfolding pair_message
rate_limit services s m now fresh st c window found open_window early six valid kind =
    let id = member (text "id") m in
    let type = member (text "type") m in
    let c' : Session = record c { pairing_attempts = c.pairing_attempts + 1 } in
    let later = set_session s c' st in
    let seen = session_of_found later now s c' (Dict.find-insert_self s c' st.sessions) in
    rw
      (
        (not_confirm_or_cancel type kind).0,
        (not_confirm_or_cancel type kind).1,
        valid,
        session_of_found st now s c found,
        count_again now c window open_window early,
      )
      (limited_over services s type id m now fresh later (rw seen (omega arith)))

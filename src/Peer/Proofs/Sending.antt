-- ===== src/Peer/Proofs/Sending.antt =====
-- src/Peer.cpp: the account of a request and one send of `remote` or `local`.
use ii_server_host.Prelude.Text.{Text, eq, eq_iff, is_empty}
use ii_server_host.Json.{Object}
use ii_server_host.Prelude.Dict.{nat_eq, text_eq, Dict}
use ii_server_host.Peer.State.{Socket, Pending, Effect, relay_sends, sends, Peer, emit, put_request}
use ii_server_host.Peer.Requests.{
  Sending, delivered, refused, broken, blank_pending, indexed, by_relay, take_remote, by_socket,
  take_local,
}
use ii_server_host.Peer.Messages.{message}
use ii_server_host.Peer.Proofs.Ledger.{
  completions, account_of, Balances, same-Balances, trans-Balances, emit-Balances, finish-Balances,
  lost-Balances, relay_broken-Balances,
}
use ii_server_host.Prelude.Dict
use ii_server_host.Prelude.{
  Option-cases, if_rule, ◌≤◌, ◌≡◌, refl, ◌∙◌, inl, inr, true, false, ◌||◌, not, some, [], ◌∷◌,
  arith,
}

-- The account of a request does not fall, and under the condition it stays the same.
pub record Keeps (S : Type 0) (id : Text) (st u : Peer) : Type 0 where
  pub grows : account_of id st ≤ account_of id u
  pub exact : S → account_of id u ≡ account_of id st

pub of-Balances : {S : Type 0} {id : Text} {st u : Peer} → Balances id st u → Keeps S id st u
of-Balances b = record { grows = omega (arith, b.balanced); exact = λ _. b.balanced }

pub trans-Keeps :
    {S : Type 0} {id : Text} {st u v : Peer} → Keeps S id st u → Keeps S id u v → Keeps S id st v
trans-Keeps p q = record {
  grows = omega (arith, p.grows, q.grows);
  exact = λ s. q.exact s ∙ p.exact s;
}

-- An effect that completes nothing
pub emit-Keeps :
    {S : Type 0} (id : Text) (e : Effect) (st u : Peer)
    → completions id (e ∷ []) ≡ 0
    → Keeps S id st u
    → Keeps S id st (emit e u)
emit-Keeps id e st u q h =
    trans-Keeps h (of-Balances (emit-Balances id e u u q (same-Balances id u u refl refl)))

pub same-Keeps : {S : Type 0} (id : Text) (st : Peer) → Keeps S id st st
same-Keeps id st = of-Balances (same-Balances id st st refl refl)

-- A pending request goes on under another transport.
put-Balances :
    (id j : Text) (r s : Pending) (st : Peer)
    → Dict.find j st.requests ≡ some r
    → Balances id st (put_request j s st)
unfolding put_request account_of
put-Balances id j r s st e = record {
  balanced = ground (arith, e, Dict.find-insert j id s st.requests, eq_iff j id);
}

-- The key is then on the table with its entry, and it was there if the condition holds.
pub indexed-Keeps :
    {S : Type 0} (id j : Text) (st : Peer)
    → (S → Dict.contains j st.requests ≡ true)
    → Keeps S id st (indexed j st (Dict.find j st.requests)).0
unfolding put_request account_of
indexed-Keeps id j st there = elim (Option-cases (Dict.find j st.requests)) [
  | inr (r, e) ↦ rw e (same-Keeps id st)
  | inl e ↦ rw e (record {
    grows = ground (arith, Dict.find-insert j id blank_pending st.requests);
    exact = λ s. absurd (ground (arith, there s, e));
  })
]

pub indexed_there :
    (j : Text) (st : Peer)
    → Dict.find j (indexed j st (Dict.find j st.requests)).0.requests
      ≡ some (indexed j st (Dict.find j st.requests)).1
unfolding put_request
indexed_there j st = elim (Option-cases (Dict.find j st.requests)) [
  | inr (r, e) ↦ rw e e
  | inl e ↦ rw e (Dict.find-insert_self j blank_pending st.requests)
]

by_relay-Balances :
    (id j : Text) (m : Object) (st : Peer) (sending : Sending)
    → Balances id st (by_relay j m st sending)
unfolding completions
by_relay-Balances id j m st delivered =
    emit-Balances id _ st st refl (same-Balances id st st refl refl)
by_relay-Balances id j m st refused = finish-Balances id j _ st
by_relay-Balances id j m st (broken message true) =
    trans-Balances (emit-Balances id (relay_sends m) st st refl (same-Balances id st st refl refl))
      (relay_broken-Balances id message _)
by_relay-Balances id j m st (broken message false) =
    trans-Balances (relay_broken-Balances id message st) (finish-Balances id j _ _)

by_socket-Balances :
    (id : Text) (s : Socket) (j : Text) (m : Object) (st : Peer) (sending : Sending)
    → Balances id st (by_socket s j m st sending)
unfolding completions
by_socket-Balances id s j m st delivered =
    emit-Balances id _ st st refl (same-Balances id st st refl refl)
by_socket-Balances id s j m st refused = finish-Balances id j _ st
by_socket-Balances id s j m st (broken message true) =
    trans-Balances (emit-Balances id (sends s m) st st refl (same-Balances id st st refl refl))
      (lost-Balances id s _)
by_socket-Balances id s j m st (broken message false) =
    trans-Balances (lost-Balances id s st) (finish-Balances id j _ _)

pub take_remote-Balances :
    (id peer : Text) (sending : Sending) (j : Text) (st : Peer) (r : Pending)
    → Dict.find j st.requests ≡ some r
    → Balances id st (take_remote peer sending j (st, r))
unfolding take_remote
take_remote-Balances id peer sending j st r e =
    if_rule (Balances id st) (not (eq r.peer peer) || not (is_empty r.transport))
      (λ _. same-Balances id st st refl refl)
      (λ _. trans-Balances (put-Balances id j r _ st e) (by_relay-Balances id j _ _ sending))

pub take_local-Balances :
    (id : Text) (s : Socket) (peer : Text) (sending : Sending) (j : Text) (st : Peer) (r : Pending)
    → Dict.find j st.requests ≡ some r
    → Balances id st (take_local s peer sending j (st, r))
unfolding take_local
take_local-Balances id s peer sending j st r e =
    if_rule (Balances id st) (not (eq r.peer peer) || not (is_empty r.transport))
      (λ _. same-Balances id st st refl refl)
      (λ _. trans-Balances (put-Balances id j r _ st e) (by_socket-Balances id s j _ _ sending))

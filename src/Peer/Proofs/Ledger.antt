-- ===== src/Peer/Proofs/Ledger.antt =====
-- src/Peer.cpp: the account of a request, which counts that it is pending and its completions, and
-- the ends of requests, links and sockets.
use ii_server_host.Protocol.{error}
use ii_server_host.Peer.Loss.{
  has_socket, request_on, finish_on, lost, relay_error, relay_disconnected, relay_broken,
}
use ii_server_host.Prelude.Dict
use ii_server_host.Prelude.{
  if◌then◌else◌, Option-cases, if_rule, ℕ, ◌+◌, ◌≡◌, refl, ◌∙◌, inl, inr, false, ◌&&◌, not, List,
  [], ◌∷◌, ◌++◌, arith,
}
use ii_server_host.Prelude.Text.{Text, text, eq, eq_iff, is_empty}
use ii_server_host.Json.{Object}
use ii_server_host.Prelude.Dict.{nat_eq, text_eq, Dict}
use ii_server_host.Peer.State.{
  Socket, Effect, relay_sends, relay_opens, relay_aborts, sends, closes, aborts, opens, calls,
  completes, changes_state, changes_peers, pairing_event, retries_in, posts_start, posts_next,
  posts_completion, posts_pairing_event, Peer, emit, finish, finish_all, aborted, reset_local,
  schedule_reconnect,
}

unfoldable pub completions : Text → List Effect → ℕ
completions id [] = 0
completions id (completes j result transport ∷ es) = (if eq j id then 1 else 0) + completions id es
completions id (_ ∷ es) = completions id es

pub completions-append :
    (id : Text) (es fs : List Effect)
    → completions id (es ++ fs) ≡ completions id es + completions id fs
unfolding completions
completions-append id [] fs = omega arith
completions-append id (completes j result t ∷ es) fs = ground (arith, completions-append id es fs)
completions-append id (relay_sends _ ∷ es) fs = completions-append id es fs
completions-append id (relay_opens ∷ es) fs = completions-append id es fs
completions-append id (relay_aborts ∷ es) fs = completions-append id es fs
completions-append id (sends _ _ ∷ es) fs = completions-append id es fs
completions-append id (closes _ _ _ ∷ es) fs = completions-append id es fs
completions-append id (aborts _ ∷ es) fs = completions-append id es fs
completions-append id (opens _ _ ∷ es) fs = completions-append id es fs
completions-append id (calls _ _ ∷ es) fs = completions-append id es fs
completions-append id (changes_state ∷ es) fs = completions-append id es fs
completions-append id (changes_peers ∷ es) fs = completions-append id es fs
completions-append id (pairing_event _ ∷ es) fs = completions-append id es fs
completions-append id (retries_in _ ∷ es) fs = completions-append id es fs
completions-append id (posts_start _ ∷ es) fs = completions-append id es fs
completions-append id (posts_next _ ∷ es) fs = completions-append id es fs
completions-append id (posts_completion _ _ ∷ es) fs = completions-append id es fs
completions-append id (posts_pairing_event _ ∷ es) fs = completions-append id es fs

-- A request counts once while it is pending, and once for each completion that is signalled.
unfoldable pub account_of : Text → Peer → ℕ
account_of id st = (if Dict.contains id st.requests then 1 else 0) + completions id st.out

-- The account of a request is the same in both states.
pub record Balances (id : Text) (st u : Peer) : Type 0 where
  pub balanced : account_of id u ≡ account_of id st

pub same-Balances :
    (id : Text) (st u : Peer) → u.requests ≡ st.requests → u.out ≡ st.out → Balances id st u
unfolding account_of
same-Balances id st u r o = record { balanced = rw (r, o) refl }

pub trans-Balances :
    {id : Text} {st u v : Peer} → Balances id st u → Balances id u v → Balances id st v
trans-Balances p q = record { balanced = q.balanced ∙ p.balanced }

-- An effect that completes nothing
pub emit-Balances :
    (id : Text) (e : Effect) (st u : Peer)
    → completions id (e ∷ []) ≡ 0
    → Balances id st u
    → Balances id st (emit e u)
unfolding emit account_of
emit-Balances id e st u q h = record {
  balanced = omega (arith, h.balanced, completions-append id u.out (e ∷ []), q);
}

pub finish-Balances :
    (id j : Text) (result : Object) (st : Peer) → Balances id st (finish j result st)
unfolding finish emit account_of completions
finish-Balances id j result st = record {
  balanced = elim (Option-cases (Dict.find j st.requests)) [
    | inl e ↦ rw e refl
    | inr (r, e) ↦ rw e (
        ground (
          arith,
          e,
          completions-append id st.out (completes j result r.transport ∷ []),
          Dict.find-remove j id st.requests,
          eq_iff j id,
        ))
  ];
}

pub finish_all-Balances :
    (id : Text) (result : Object) (ids : List Text) (st : Peer)
    → Balances id st (finish_all result ids st)
unfolding finish_all
finish_all-Balances id result [] st = same-Balances id st st refl refl
finish_all-Balances id result (j ∷ ids) st =
    trans-Balances (finish-Balances id j result st) (finish_all-Balances id result ids _)

finish_on-Balances :
    (id : Text) (s : Socket) (ids : List Text) (st : Peer) → Balances id st (finish_on s ids st)
unfolding finish_on
finish_on-Balances id s [] st = same-Balances id st st refl refl
finish_on-Balances id s (j ∷ ids) st =
    trans-Balances
      (if_rule (Balances id st) (request_on s (Dict.find j st.requests))
        (λ _. finish-Balances id j _ st) (λ _. same-Balances id st st refl refl))
      (finish_on-Balances id s ids _)

pub lost-Balances : (id : Text) (s : Socket) (st : Peer) → Balances id st (lost s st)
unfolding lost completions
lost-Balances id s st = elim (Option-cases (Dict.find s st.links)) [
  | inl e ↦ rw e (same-Balances id st st refl refl)
  | inr (l, e) ↦
      let cut : Peer = record st {
        links = Dict.remove s st.links;
        outbound =
            if has_socket s (Dict.find l.peer st.outbound)
            then Dict.remove l.peer st.outbound
            else st.outbound;
      } in
      let ended =
        trans-Balances (emit-Balances id (aborts s) st cut refl (same-Balances id st cut refl refl))
          (finish_on-Balances id s (Dict.keys st.requests) (emit (aborts s) cut)) in
      rw e (
        if_rule (Balances id st) (l.outgoing && not l.authenticated)
          (λ _. emit-Balances id _ st _ refl ended) (λ _. ended))
]

pub schedule_reconnect-Balances : (id : Text) (st : Peer) → Balances id st (schedule_reconnect st)
unfolding schedule_reconnect completions
schedule_reconnect-Balances id st =
    if_rule (Balances id st) (st.running && not st.fatal && not st.retry_active)
      (λ _. emit-Balances id _ st _ refl (same-Balances id st _ refl refl))
      (λ _. same-Balances id st st refl refl)

completions-aborted : (id : Text) (ss : List Socket) → completions id (aborted ss) ≡ 0
unfolding completions
completions-aborted id [] = refl
completions-aborted id (s ∷ ss) = completions-aborted id ss

pub reset_local-Balances : (id : Text) (st : Peer) → Balances id st (reset_local st)
unfolding reset_local account_of
reset_local-Balances id st = record {
  balanced = omega (
    arith,
    completions-append id st.out (aborted (Dict.keys st.links)),
    completions-aborted id (Dict.keys st.links),
  );
}

pub relay_disconnected-Balances : (id : Text) (st : Peer) → Balances id st (relay_disconnected st)
unfolding relay_disconnected completions
relay_disconnected-Balances id st =
    let cleared : Peer = record st {
      auth_active = false;
      ready = false;
      directory = [];
      account = [];
    } in
    let reset = reset_local cleared in
    let ended = trans-Balances (same-Balances id st cleared refl refl) (
      trans-Balances (reset_local-Balances id cleared) (
        finish_all-Balances id (error (text "connection_lost")) (Dict.keys reset.requests)
          reset)) in
    trans-Balances
      (emit-Balances id changes_peers st _ refl (emit-Balances id changes_state st _ refl ended))
      (schedule_reconnect-Balances id _)

pub relay_error-Balances : (id message : Text) (st : Peer) → Balances id st (relay_error message st)
unfolding relay_error completions
relay_error-Balances id message st =
    if_rule (Balances id st) (not st.running) (λ _. same-Balances id st st refl refl)
      (λ _.
        trans-Balances (emit-Balances id changes_state st _ refl (same-Balances id st _ refl refl))
          (schedule_reconnect-Balances id _))

pub relay_broken-Balances :
    (id message : Text) (st : Peer) → Balances id st (relay_broken message st)
unfolding relay_broken
relay_broken-Balances id message st =
    trans-Balances
      (if_rule (Balances id st) (is_empty message) (λ _. same-Balances id st st refl refl)
        (λ _. relay_error-Balances id message st))
      (relay_disconnected-Balances id _)

-- ===== src/Peer/Proofs/Parts.antt =====
-- src/Peer.cpp: the account of a request and the parts of an event.
use ii_server_host.Peer.Loss.{request_on}
use ii_server_host.Peer.Turns.{holds}
use ii_server_host.Peer.Proofs.Sending.{Keeps, of-Balances, trans-Keeps, emit-Keeps, same-Keeps}
use ii_server_host.Peer.Proofs.Loops.{remote-Keeps, local-Keeps}
use ii_server_host.Prelude.Dict
use ii_server_host.Prelude.{
  Option-cases, is_some, if_rule, any, ℕ, ◌≡◌, refl, inl, inr, true, ◌&&◌, ◌||◌, not, Option, List,
  [], ◌∷◌,
}
use ii_server_host.Prelude.Text.{Text, text, eq}
use ii_server_host.Json.{Json, Object, is_object, to_bool, value}
use ii_server_host.Protocol.{identifier, pin_certificate, is_over}
use ii_server_host.Prelude.Dict.{nat_eq, text_eq, Dict}
use ii_server_host.Peer.State.{Socket, Link, Peer, member, listed_text}
use ii_server_host.Peer.Requests.{Sending, is_entry, open_link, start_request}
use ii_server_host.Peer.Links.{
  Net, or_none, try_url, next_local, may_handle, ran, takes, admit, greet, serve_link, link_message,
}
use ii_server_host.Peer.Messages.{is_stale_link, lose_absent}
use ii_server_host.Peer.Events.{
  is_late, expire_requests, expire_tickets, link_over, expire_links, sweep,
}
use ii_server_host.Peer.Proofs.Ledger.{
  completions, Balances, same-Balances, trans-Balances, emit-Balances, finish-Balances,
  lost-Balances,
}

pub lose_absent-Balances :
    (id : Text) (directory : List Json) (ss : List Socket) (st : Peer)
    → Balances id st (lose_absent directory ss st)
unfolding lose_absent
lose_absent-Balances id directory [] st = same-Balances id st st refl refl
lose_absent-Balances id directory (s ∷ ss) st =
    trans-Balances
      (if_rule (Balances id st) (is_stale_link directory (Dict.find s st.links))
        (λ _. lost-Balances id s st) (λ _. same-Balances id st st refl refl))
      (lose_absent-Balances id directory ss _)

pub expire_links-Balances :
    (id : Text) (now : ℕ) (ss : List Socket) (st : Peer) → Balances id st (expire_links now ss st)
unfolding expire_links
expire_links-Balances id now [] st = same-Balances id st st refl refl
expire_links-Balances id now (s ∷ ss) st =
    trans-Balances
      (if_rule (Balances id st) (link_over now (Dict.find s st.links)) (λ _. lost-Balances id s st)
        (λ _. same-Balances id st st refl refl))
      (expire_links-Balances id now ss _)

pub expire_requests-Balances :
    (id : Text) (now : ℕ) (ids : List Text) (st : Peer)
    → Balances id st (expire_requests now ids st)
unfolding expire_requests
expire_requests-Balances id now [] st = same-Balances id st st refl refl
expire_requests-Balances id now (j ∷ ids) st =
    trans-Balances
      (if_rule (Balances id st) (is_late now (Dict.find j st.requests))
        (λ _. finish-Balances id j _ st) (λ _. same-Balances id st st refl refl))
      (expire_requests-Balances id now ids _)

pub sweep-Balances : (id : Text) (now : ℕ) (st : Peer) → Balances id st (sweep now st)
unfolding sweep
sweep-Balances id now st =
    let a = expire_requests now (Dict.keys st.requests) st in
    let b = record a { tickets = expire_tickets now (Dict.keys a.tickets) a.tickets } in
    trans-Balances (expire_requests-Balances id now (Dict.keys st.requests) st) (
      trans-Balances (same-Balances id a b refl refl)
        (expire_links-Balances id now (Dict.keys b.links) b))

pub start_request-Keeps :
    {S : Type 0} (id j : Text) (sent : Text → Sending) (now : ℕ) (st : Peer)
    → (S → (j : Text) → holds (sent j) ≡ true)
    → Keeps S id st (start_request j sent now st)
unfolding start_request completions
start_request-Keeps {S} id j sent now st steady = elim (Option-cases (Dict.find j st.requests)) [
  | inl e ↦ rw e (same-Keeps id st)
  | inr (r, e) ↦ rw e (
      if_rule (Keeps S id st) (not st.ready) (λ _. of-Balances (finish-Balances id j _ st))
        λ _.
          if_rule (Keeps S id st) (not (any (is_entry r.peer) st.directory))
            (λ _. of-Balances (finish-Balances id j _ st))
            λ _. elim (Option-cases (open_link now st (Dict.find r.peer st.outbound))) [
              | inr (s, f) ↦ rw f (local-Keeps id s sent st steady)
              | inl f ↦ rw f (
                  if_rule (Keeps S id st) (not st.options.local_enabled)
                    (λ _. remote-Keeps id r.peer sent st steady)
                    λ _.
                      if_rule (Keeps S id st) (listed_text r.peer st.connecting)
                        (λ _. same-Keeps id st)
                        (λ _.
                          emit-Keeps id _ st _ refl
                            (of-Balances (same-Balances id st _ refl refl))))
            ])
]

pub next_local-Keeps :
    {S : Type 0} (id : Text) (net : Net) (peer : Text) (s : Socket) (sent : Text → Sending)
    (now : ℕ) (st : Peer)
    → (S → (j : Text) → holds (sent j) ≡ true)
    → Keeps S id st (next_local net peer s sent now st)
unfolding next_local completions
next_local-Keeps {S} id net peer s sent now st steady =
    let a = or_none (Dict.find peer st.attempts) in
    if_rule (Keeps S id st) (not st.running || not st.ready || not (listed_text peer st.connecting))
      (λ _. same-Keeps id st)
      λ _.
        if_rule (Keeps S id st) (is_over a.expires now) (λ _. remote-Keeps id peer sent st steady)
          (λ _. tried a.urls)
  where
    tried :
        (urls : List Text)
        → Keeps S id st (try_url net peer (or_none (Dict.find peer st.attempts)) s sent now urls st)
    tried [] = remote-Keeps id peer sent st steady
    tried (url ∷ urls) =
        if_rule (Keeps S id st)
          (eq (net.parse_url url).scheme (text "wss")
            && not (
                is_some (
                  pin_certificate net.from_hex net.to_hex
                    (or_none (Dict.find peer st.attempts)).fingerprint)))
          (λ _.
            trans-Keeps (of-Balances (same-Balances id st _ refl refl))
              (of-Balances (lost-Balances id s _)))
          (λ _. emit-Keeps id _ st _ refl (of-Balances (same-Balances id st _ refl refl)))

pub greet-Keeps :
    {S : Type 0} (id : Text) (s : Socket) (l : Link) (m : Object) (sent : Text → Sending) (now : ℕ)
    (st : Peer)
    → (S → (j : Text) → holds (sent j) ≡ true)
    → Keeps S id st (greet s l m sent now st)
unfolding greet admit completions
greet-Keeps {S} id s l m sent now st steady =
    let type = member (text "type") m in
    if_rule (Keeps S id st) (l.outgoing && eq type (text "hello") && to_bool (value (text "ok") m))
      (λ _.
        trans-Keeps (of-Balances (same-Balances id st _ refl refl))
          (local-Keeps id s sent _ steady))
      λ _.
        if_rule (Keeps S id st)
          (not l.outgoing
            && eq type (text "hello")
            && st.ready
            && takes now (Dict.find (member (text "ticket") m) st.tickets))
          (λ _. emit-Keeps id _ st _ refl (of-Balances (same-Balances id st _ refl refl)))
          (λ _. emit-Keeps id _ st st refl (same-Keeps id st))

pub ran-Balances :
    (id peer : Text) (payload : Object) (st : Peer) → Balances id st (ran peer payload st)
unfolding ran completions
ran-Balances id peer payload st =
    if_rule (Balances id st) (may_handle st)
      (λ _. emit-Balances id _ st st refl (same-Balances id st st refl refl))
      (λ _. same-Balances id st st refl refl)

pub link_message-Keeps :
    {S : Type 0} (id : Text) (s : Socket) (m : Object) (answer : Option Object)
    (sent : Text → Sending) (now : ℕ) (st : Peer)
    → (S → (j : Text) → holds (sent j) ≡ true)
    → Keeps S id st (link_message s m answer sent now st)
unfolding link_message serve_link completions
link_message-Keeps {S} id s m answer sent now st steady =
    elim (Option-cases (Dict.find s st.links)) [
      | inl e ↦ rw e (same-Keeps id st)
      | inr (l, e) ↦
          let type = member (text "type") m in
          let j = member (text "id") m in
          rw e (
            if_rule (Keeps S id st) l.authenticated
              (λ _.
                if_rule (Keeps S id st) (not st.ready || is_over l.expires now)
                  (λ _. emit-Keeps id _ st st refl (same-Keeps id st))
                  λ _.
                    if_rule (Keeps S id st)
                      (eq type (text "request")
                        && not l.outgoing
                        && identifier j
                        && is_object (value (text "payload") m))
                      (λ _. emit-Keeps id _ st _ refl (of-Balances (ran-Balances id l.peer _ st)))
                      λ _.
                        if_rule (Keeps S id st)
                          (eq type (text "response")
                            && l.outgoing
                            && request_on s (Dict.find j st.requests))
                          (λ _. of-Balances (finish-Balances id j _ st))
                          (λ _. emit-Keeps id _ st st refl (same-Keeps id st)))
              (λ _. greet-Keeps id s l m sent now st steady))
    ]

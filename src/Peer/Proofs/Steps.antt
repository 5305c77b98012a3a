-- ===== src/Peer/Proofs/Steps.antt =====
-- src/Peer.cpp: the account of a request and the relay's messages, the start and the end.
use ii_server_host.Peer.Requests.{Sending}
use ii_server_host.Peer.Turns.{holds}
use ii_server_host.Peer.Proofs.Sending.{Keeps, of-Balances, trans-Keeps, emit-Keeps, same-Keeps}
use ii_server_host.Prelude.Dict
use ii_server_host.Prelude.{
  leb, is_some, if_rule, length, ℕ, ◌≡◌, refl, Bool, true, false, ◌&&◌, not, Option, none,
}
use ii_server_host.Prelude.Text.{Text, text, eq}
use ii_server_host.Json.{Object}
use ii_server_host.Protocol.{error, listener_error}
use ii_server_host.Prelude.Dict.{nat_eq, text_eq, Dict}
use ii_server_host.Peer.State.{
  Socket, PeerOptions, relay_aborts, changes_state, changes_peers, Peer, member, listed_text,
  reset_local,
}
use ii_server_host.Peer.Links.{Net}
use ii_server_host.Peer.Messages.{
  register, set_directory, add_ticket, connect_peer, relayed, is_remote, ready_message, message,
}
use ii_server_host.Peer.Events.{stop, is_invalid, hosts_links, start}
use ii_server_host.Peer.Proofs.Ledger.{
  completions, Balances, same-Balances, trans-Balances, emit-Balances, finish-Balances,
  finish_all-Balances, reset_local-Balances, relay_disconnected-Balances,
}
use ii_server_host.Peer.Proofs.Parts.{lose_absent-Balances, next_local-Keeps, ran-Balances}

pub ready_message-Keeps :
    {S : Type 0} (id : Text) (net : Net) (m : Object) (answer : Option Object) (s : Socket)
    (sent : Text → Sending) (now : ℕ) (st : Peer)
    → (S → (j : Text) → holds (sent j) ≡ true)
    → Keeps S id st (ready_message net m answer s sent now st)
unfolding ready_message set_directory add_ticket connect_peer relayed completions
ready_message-Keeps {S} id net m answer s sent now st steady =
    let type = member (text "type") m in
    let P : Peer → Type 0 = λ u. Keeps S id st u in
    let still = same-Keeps id st in
    if_rule P (eq type (text "pairing")) (λ _. emit-Keeps id _ st st refl still)
      λ _.
        if_rule P (eq type (text "peers"))
          (λ _. emit-Keeps id _ st _ refl (
            trans-Keeps (of-Balances (same-Balances id st _ refl refl))
              (of-Balances (lose_absent-Balances id _ (Dict.keys st.links) _))))
          λ _.
            if_rule P (eq type (text "ticket"))
              (λ _.
                if_rule P (leb 128 (length st.tickets)) (λ _. still)
                  (λ _. of-Balances (same-Balances id st _ refl refl)))
              λ _.
                if_rule P (eq type (text "connect"))
                  (λ _.
                    if_rule P (not (listed_text (member (text "peerId") m) st.connecting))
                      (λ _. still)
                      (λ _.
                        trans-Keeps (of-Balances (same-Balances id st _ refl refl))
                          (next_local-Keeps id net _ s sent now _ steady)))
                  λ _.
                    if_rule P (eq type (text "request"))
                      (λ _. emit-Keeps id _ st _ refl (of-Balances (ran-Balances id _ _ st)))
                      λ _.
                        if_rule P
                          (eq type (text "response")
                            && is_remote (Dict.find (member (text "id") m) st.requests))
                          (λ _. of-Balances (finish-Balances id _ _ st)) (λ _. still)

pub message-Keeps :
    {S : Type 0} (id : Text) (net : Net) (m : Object) (answer : Option Object) (s : Socket)
    (sent : Text → Sending) (now : ℕ) (st : Peer)
    → (S → (j : Text) → holds (sent j) ≡ true)
    → Keeps S id st (message net m answer s sent now st)
unfolding message register completions
message-Keeps {S} id net m answer s sent now st steady =
    let type = member (text "type") m in
    let P : Peer → Type 0 = λ u. Keeps S id st u in
    if_rule P (eq type (text "authenticated"))
      (λ _. emit-Keeps id _ st _ refl (of-Balances (same-Balances id st _ refl refl)))
      λ _.
        if_rule P (eq type (text "registered"))
          (λ _. emit-Keeps id _ st _ refl (of-Balances (same-Balances id st _ refl refl)))
          λ _.
            if_rule P (eq type (text "error"))
              (λ _. emit-Keeps id _ st _ refl (of-Balances (same-Balances id st _ refl refl)))
              λ _.
                if_rule P (not st.ready) (λ _. same-Keeps id st)
                  (λ _. ready_message-Keeps id net m answer s sent now st steady)

pub stop-Balances :
    (id : Text) (relay_open : Bool) (st : Peer) → Balances id st (stop relay_open st)
unfolding stop completions
stop-Balances id relay_open st =
    let halted : Peer = record st {
      running = false;
      retry_active = false;
      auth_active = false;
      server = none;
    } in
    let reset : Peer = record (reset_local halted) { ready = false } in
    let cut = emit-Balances id relay_aborts st reset refl (
      trans-Balances (same-Balances id st halted refl refl)
        (trans-Balances (reset_local-Balances id halted) (same-Balances id _ reset refl refl))) in
    let closed =
      if_rule (Balances id st) relay_open
        (λ _. trans-Balances cut (relay_disconnected-Balances id _)) (λ _. cut) in
    let ended = trans-Balances closed (finish_all-Balances id (error (text "stopped")) _ _) in
    emit-Balances id changes_peers st _ refl (
      emit-Balances id changes_state st _ refl
        (trans-Balances ended (same-Balances id _ _ refl refl)))

pub start-Balances :
    (id : Text) (net : Net) (o : PeerOptions) (has_handler : Bool) (port : Option ℕ)
    (listener_error : Text) (relay_open : Bool) (st : Peer)
    → Balances id st (start net o has_handler port listener_error relay_open st).1
unfolding start completions
start-Balances id net o has_handler port listener_error relay_open st =
    let P : Bool × Peer → Type 0 = λ r. Balances id st r.1 in
    let stopped = stop-Balances id relay_open st in
    if_rule P (is_invalid net o)
      (λ _. emit-Balances id _ st _ refl (trans-Balances stopped (same-Balances id _ _ refl refl)))
      λ _.
        if_rule P (hosts_links o && not (is_some port))
          (λ _.
            emit-Balances id _ st _ refl (trans-Balances stopped (same-Balances id _ _ refl refl)))
          (λ _.
            emit-Balances id _ st _ refl (trans-Balances stopped (same-Balances id _ _ refl refl)))

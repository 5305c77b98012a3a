-- ===== src/Peer/Proofs/Endings.antt =====
-- src/Peer.cpp: stopping ends every pending request.
use ii_server_host.Prelude.Dict
use ii_server_host.Prelude.{
  Bool-cases, Option-cases, ◌+◌, ◌≡◌, inl, inr, Bool, true, false, none, List, [], ◌∷◌, arith,
}
use ii_server_host.Prelude.Text.{Text, text, eq, eq_iff}
use ii_server_host.Json.{Object}
use ii_server_host.Protocol.{error}
use ii_server_host.Prelude.Dict.{nat_eq, text_eq, Dict}
use ii_server_host.Peer.State.{Peer, emit, finish, finish_all}
use ii_server_host.Peer.Events.{stop}
use ii_server_host.Peer.Proofs.Ledger.{completions, account_of}
use ii_server_host.Peer.Proofs.Steps.{stop-Balances}

finish_gone :
    (id j : Text) (result : Object) (st : Peer)
    → Dict.find id st.requests ≡ none
    → Dict.find id (finish j result st).requests ≡ none
unfolding finish emit
finish_gone id j result st h = elim (Option-cases (Dict.find j st.requests)) [
  | inl e ↦ rw e h
  | inr (r, e) ↦ rw e (ground (arith, h, Dict.find-remove j id st.requests))
]

finish_all_gone :
    (id : Text) (result : Object) (ids : List Text) (st : Peer)
    → Dict.find id st.requests ≡ none
    → Dict.find id (finish_all result ids st).requests ≡ none
unfolding finish_all
finish_all_gone id result [] st h = h
finish_all_gone id result (j ∷ ids) st h =
    finish_all_gone id result ids (finish j result st) (finish_gone id j result st h)

finish_own :
    (id : Text) (result : Object) (st : Peer) → Dict.find id (finish id result st).requests ≡ none
unfolding finish emit
finish_own id result st = elim (Option-cases (Dict.find id st.requests)) [
  | inl e ↦ rw e e
  | inr (r, e) ↦ rw e (Dict.not-find-remove id st.requests)
]

finish_all-listed :
    (id : Text) (result : Object) (ids : List Text) (st : Peer)
    → Dict.listed id ids ≡ true
    → Dict.find id (finish_all result ids st).requests ≡ none
unfolding finish_all
finish_all-listed id result [] st l = absurd (cc l)
finish_all-listed id result (j ∷ ids) st l = elim (Bool-cases (eq j id)) [
  | inl y ↦
      let same : j ≡ id = (eq_iff j id).0 y in
      finish_all_gone id result ids (finish j result st) (rw same (finish_own id result st))
  | inr n ↦ finish_all-listed id result ids (finish j result st) (ground (arith, l, n))
]

-- Finishing all that is pending leaves nothing pending.
all_gone :
    (id : Text) (result : Object) (st : Peer)
    → Dict.find id (finish_all result (Dict.keys st.requests) st).requests ≡ none
all_gone id result st = elim (Option-cases (Dict.find id st.requests)) [
  | inl e ↦ finish_all_gone id result (Dict.keys st.requests) st e
  | inr (r, e) ↦
      finish_all-listed id result (Dict.keys st.requests) st (Dict.listed-keys id st.requests r e)
]

not-find-stop :
    (id : Text) (relay_open : Bool) (st : Peer) → Dict.find id (stop relay_open st).requests ≡ none
unfolding stop emit
not-find-stop id relay_open st = all_gone id (error (text "stopped")) _

-- Stopping a peer completes each pending request once more than before, and leaves none pending,
-- whether the relay's socket is open or not.
pub stop_completes :
    (id : Text) (relay_open : Bool) (st : Peer)
    → Dict.contains id st.requests ≡ true
    → (Dict.contains id (stop relay_open st).requests ≡ false)
      × (completions id (stop relay_open st).out ≡ completions id st.out + 1)
unfolding account_of
stop_completes id relay_open st h =
    let gone = not-find-stop id relay_open st in
    let same = (stop-Balances id relay_open st).balanced in
    (ground (arith, gone), ground (arith, gone, same, h))

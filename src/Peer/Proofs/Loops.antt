-- ===== src/Peer/Proofs/Loops.antt =====
-- src/Peer.cpp: the loops of `remote` and `local` and the account of a request.
use ii_server_host.Prelude.Text.{Text, eq, eq_refl, eq_iff, is_empty}
use ii_server_host.Json.{Object}
use ii_server_host.Prelude.Dict.{nat_eq, text_eq, Dict}
use ii_server_host.Peer.State.{Socket, Pending, Peer, emit, without, finish, put_request}
use ii_server_host.Peer.Requests.{
  Sending, delivered, refused, broken, blank_pending, indexed, by_relay, take_remote, remote_each,
  once, settled, remote, by_socket, take_local, local_each, local,
}
use ii_server_host.Peer.Messages.{message}
use ii_server_host.Peer.Turns.{holds}
use ii_server_host.Peer.Proofs.Ledger.{same-Balances}
use ii_server_host.Peer.Proofs.Sending.{
  Keeps, of-Balances, trans-Keeps, same-Keeps, indexed-Keeps, indexed_there, take_remote-Balances,
  take_local-Balances,
}
use ii_server_host.Prelude.Dict
use ii_server_host.Prelude.{
  Option-cases, if_rule, ◌≡◌, refl, ◌∙◌, inl, inr, true, false, ◌||◌, not, List, [], ◌∷◌, arith,
}

-- No key is listed twice.
AllOnce : List Text → Type 0
AllOnce [] = Unit
AllOnce (j ∷ js) = (Dict.listed j js ≡ false) × AllOnce js

listed-without :
    (k j : Text) (ks : List Text)
    → Dict.listed k (without j ks) ≡ true
    → (Dict.listed k ks ≡ true) × (eq j k ≡ false)
unfolding without
listed-without k j (i ∷ ks) h =
    ground (arith, h, listed-without k j ks, eq_iff i k, eq_iff i j, eq_iff j k)
listed-without k j [] h = absurd (cc h)

AllOnce-without : (j : Text) (ks : List Text) → AllOnce ks → AllOnce (without j ks)
unfolding without AllOnce
AllOnce-without j [] h = tt
AllOnce-without j (i ∷ ks) h =
    if_rule AllOnce (eq i j) (λ _. AllOnce-without j ks h.1)
      (λ _. (ground (arith, h.0, listed-without i j ks), AllOnce-without j ks h.1))

once-AllOnce : (ks : List Text) → AllOnce (once ks)
unfolding once AllOnce
once-AllOnce [] = tt
once-AllOnce (k ∷ ks) = (
  ground (arith, listed-without k k (once ks), eq_refl k),
  AllOnce-without k (once ks) (once-AllOnce ks),
)

listed-once : (k : Text) (ks : List Text) → Dict.listed k (once ks) ≡ true → Dict.listed k ks ≡ true
unfolding once
listed-once k [] h = h
listed-once k (j ∷ ks) h = ground (arith, h, listed-once k ks, listed-without k j (once ks))

contains_of_listed :
    (k : Text) (d : Dict Text Pending)
    → Dict.listed k (Dict.keys d) ≡ true
    → Dict.contains k d ≡ true
unfolding Dict.keys Dict.find
contains_of_listed k [] h = absurd (cc h)
contains_of_listed k ((j, v) ∷ d) h = ground (arith, h, contains_of_listed k d)

contains-indexed :
    (k j : Text) (st : Peer)
    → eq j k ≡ false
    → Dict.contains k (indexed j st (Dict.find j st.requests)).0.requests
      ≡ Dict.contains k st.requests
unfolding put_request
contains-indexed k j st n = elim (Option-cases (Dict.find j st.requests)) [
  | inr (r, e) ↦ rw e refl
  | inl e ↦ rw e (ground (arith, n, Dict.find-insert j k blank_pending st.requests))
]

contains-finish :
    (k j : Text) (result : Object) (st : Peer)
    → eq j k ≡ false
    → Dict.contains k (finish j result st).requests ≡ Dict.contains k st.requests
unfolding finish emit
contains-finish k j result st n = elim (Option-cases (Dict.find j st.requests)) [
  | inl e ↦ rw e refl
  | inr (r, e) ↦ rw e (ground (arith, n, Dict.find-remove j k st.requests))
]

contains-put_request :
    (k j : Text) (r : Pending) (st : Peer)
    → eq j k ≡ false
    → Dict.contains k (put_request j r st).requests ≡ Dict.contains k st.requests
unfolding put_request
contains-put_request k j r st n = ground (arith, n, Dict.find-insert j k r st.requests)

contains-by_relay :
    (k j : Text) (m : Object) (st : Peer) (sending : Sending)
    → holds sending ≡ true
    → eq j k ≡ false
    → Dict.contains k (by_relay j m st sending).requests ≡ Dict.contains k st.requests
unfolding emit
contains-by_relay k j m st delivered h n = refl
contains-by_relay k j m st refused h n = contains-finish k j _ st n
contains-by_relay k j m st (broken message answer) h n = absurd (cc h)

contains-by_socket :
    (k : Text) (s : Socket) (j : Text) (m : Object) (st : Peer) (sending : Sending)
    → holds sending ≡ true
    → eq j k ≡ false
    → Dict.contains k (by_socket s j m st sending).requests ≡ Dict.contains k st.requests
unfolding emit
contains-by_socket k s j m st delivered h n = refl
contains-by_socket k s j m st refused h n = contains-finish k j _ st n
contains-by_socket k s j m st (broken message answer) h n = absurd (cc h)

contains-take_remote :
    (k peer : Text) (sending : Sending) (j : Text) (st : Peer) (r : Pending)
    → holds sending ≡ true
    → eq j k ≡ false
    → Dict.contains k (take_remote peer sending j (st, r)).requests ≡ Dict.contains k st.requests
unfolding take_remote
contains-take_remote k peer sending j st r h n =
    if_rule (λ (u : Peer). Dict.contains k u.requests ≡ Dict.contains k st.requests)
      (not (eq r.peer peer) || not (is_empty r.transport)) (λ _. refl)
      (λ _. contains-by_relay k j _ _ sending h n ∙ contains-put_request k j _ st n)

contains-take_local :
    (k : Text) (s : Socket) (peer : Text) (sending : Sending) (j : Text) (st : Peer) (r : Pending)
    → holds sending ≡ true
    → eq j k ≡ false
    → Dict.contains k (take_local s peer sending j (st, r)).requests ≡ Dict.contains k st.requests
unfolding take_local
contains-take_local k s peer sending j st r h n =
    if_rule (λ (u : Peer). Dict.contains k u.requests ≡ Dict.contains k st.requests)
      (not (eq r.peer peer) || not (is_empty r.transport)) (λ _. refl)
      (λ _. contains-by_socket k s j _ _ sending h n ∙ contains-put_request k j _ st n)

abbrev AllThere : List Text → Peer → Type 0
AllThere ids st = (k : Text) → Dict.listed k ids ≡ true → Dict.contains k st.requests ≡ true

remote_each-Keeps :
    {S : Type 0} (id peer : Text) (sent : Text → Sending)
    → (S → (j : Text) → holds (sent j) ≡ true)
    → (ids : List Text) → AllOnce ids
    → (st : Peer) → (S → AllThere ids st)
    → Keeps S id st (remote_each peer sent ids st)
unfolding remote_each AllOnce
remote_each-Keeps id peer sent steady [] o st there = same-Keeps id st
remote_each-Keeps {S} id peer sent steady (j ∷ ids) o st there =
    let entry = indexed j st (Dict.find j st.requests) in
    let next = take_remote peer (sent j) j entry in
    let first : S → Dict.contains j st.requests ≡ true =
      λ s. there s j (ground (arith, eq_refl j)) in
    let rest : S → AllThere ids next = λ s k l.
      let n : eq j k ≡ false = ground (arith, o.0, l, eq_iff j k) in
      (contains-take_remote k peer (sent j) j entry.0 entry.1 (steady s j) n
        ∙ contains-indexed k j st n)
      ∙ there s k (ground (arith, l)) in
    trans-Keeps (indexed-Keeps id j st first) (
      trans-Keeps
        (of-Balances (take_remote-Balances id peer (sent j) j entry.0 entry.1 (indexed_there j st)))
        (remote_each-Keeps id peer sent steady ids o.1 next rest))

local_each-Keeps :
    {S : Type 0} (id : Text) (socket : Socket) (peer : Text) (sent : Text → Sending)
    → (S → (j : Text) → holds (sent j) ≡ true)
    → (ids : List Text) → AllOnce ids
    → (st : Peer) → (S → AllThere ids st)
    → Keeps S id st (local_each socket peer sent ids st)
unfolding local_each AllOnce
local_each-Keeps id socket peer sent steady [] o st there = same-Keeps id st
local_each-Keeps {S} id socket peer sent steady (j ∷ ids) o st there =
    let entry = indexed j st (Dict.find j st.requests) in
    let next = take_local socket peer (sent j) j entry in
    let first : S → Dict.contains j st.requests ≡ true =
      λ s. there s j (ground (arith, eq_refl j)) in
    let rest : S → AllThere ids next = λ s k l.
      let n : eq j k ≡ false = ground (arith, o.0, l, eq_iff j k) in
      (contains-take_local k socket peer (sent j) j entry.0 entry.1 (steady s j) n
        ∙ contains-indexed k j st n)
      ∙ there s k (ground (arith, l)) in
    trans-Keeps (indexed-Keeps id j st first) (
      trans-Keeps
        (of-Balances
          (take_local-Balances id socket peer (sent j) j entry.0 entry.1 (indexed_there j st)))
        (local_each-Keeps id socket peer sent steady ids o.1 next rest))

-- The keys of the table are on it.
once-AllThere : (st : Peer) → AllThere (once (Dict.keys st.requests)) st
once-AllThere st k l = contains_of_listed k st.requests (listed-once k (Dict.keys st.requests) l)

pub remote-Keeps :
    {S : Type 0} (id peer : Text) (sent : Text → Sending) (st : Peer)
    → (S → (j : Text) → holds (sent j) ≡ true)
    → Keeps S id st (remote peer sent st)
unfolding remote settled
remote-Keeps id peer sent st steady =
    trans-Keeps (of-Balances (same-Balances id st (settled peer st) refl refl)) (
      remote_each-Keeps id peer sent steady (once (Dict.keys st.requests)) (once-AllOnce _) _
        (λ s. once-AllThere st))

pub local-Keeps :
    {S : Type 0} (id : Text) (s : Socket) (sent : Text → Sending) (st : Peer)
    → (S → (j : Text) → holds (sent j) ≡ true)
    → Keeps S id st (local s sent st)
unfolding local settled
local-Keeps {S} id s sent st steady = elim (Option-cases (Dict.find s st.links)) [
  | inl e ↦ rw e (same-Keeps id st)
  | inr (l, e) ↦ rw e (
      if_rule (Keeps S id st) l.authenticated
        (λ _. trans-Keeps (of-Balances (same-Balances id st (settled l.peer st) refl refl)) (
          local_each-Keeps id s l.peer sent steady (once (Dict.keys st.requests)) (once-AllOnce _) _
            (λ s. once-AllThere st)))
        (λ _. same-Keeps id st))
]

-- ===== src/Peer/Proofs/History.antt =====
-- src/Peer.cpp: the account of a request through every event, and through the states that follow.
use ii_server_host.Peer.Proofs.Sending.{Keeps, of-Balances}
use ii_server_host.Peer.Events.{
  open_relay, relay_connected, deliver_completion, refresh_peers, create_pairing_offer,
  claim_pairing_offer, confirm_pairing, cancel_pairing,
}
use ii_server_host.Prelude.Dict
use ii_server_host.Prelude.{
  ltb, leb, if◌then◌else◌, Option-cases, if_rule, length, ℕ, ◌+◌, ◌-◌, ◌≤◌, ◌<◌, ◌≡◌, refl, ◌∙◌,
  ◌⊎◌, inl, inr, Bool, true, false, ◌||◌, Option, none, some, [], ◌∷◌, arith,
}
use ii_server_host.Prelude.Text.{Text, eq}
use ii_server_host.Json.{Object, size}
use ii_server_host.Protocol.{wire_limit, listener_error}
use ii_server_host.Prelude.Dict.{nat_eq, text_eq, Dict}
use ii_server_host.Peer.State.{Socket, Pending, Effect, posts_start, Peer, emit, put_request}
use ii_server_host.Peer.Requests.{request}
use ii_server_host.Peer.Links.{Net, link_connected, accept}
use ii_server_host.Peer.Messages.{authenticate, message}
use ii_server_host.Peer.Turns.{
  Event, starts, stops, relay_connects, relay_disconnects, reopens, authenticates, refreshes,
  relay_errors, receives, accepts, link_connects, link_receives, link_loses, tries, begins,
  requests, delivers, offers_pairing, confirms_pairing, cancels_pairing, claims_pairing, ticks,
  step, is_about, IsSteady, Later, now_there, goes_on,
}
use ii_server_host.Peer.Proofs.Ledger.{
  completions, completions-append, account_of, Balances, same-Balances, trans-Balances,
  emit-Balances, lost-Balances, relay_disconnected-Balances, relay_error-Balances,
  relay_broken-Balances,
}
use ii_server_host.Peer.Proofs.Parts.{
  sweep-Balances, start_request-Keeps, next_local-Keeps, link_message-Keeps,
}
use ii_server_host.Peer.Proofs.Steps.{message-Keeps, stop-Balances, start-Balances}

refl-Balances : (id : Text) (st : Peer) → Balances id st st
refl-Balances id st = same-Balances id st st refl refl

other_request-Balances :
    (id j peer : Text) (payload : Object) (size now : ℕ) (st : Peer)
    → eq j id ≡ false
    → Balances id st (request j peer payload size now st)
unfolding request completions put_request account_of
other_request-Balances id j peer payload size now st n =
    let r : Pending = record {
      peer = peer;
      payload = payload;
      transport = [];
      socket = none;
      deadline = now + st.options.request_timeout_ms;
    } in
    let taken : Balances id st (put_request j r st) = record {
      balanced = ground (arith, n, Dict.find-insert j id r st.requests);
    } in
    if_rule (Balances id st) (leb 32 (length st.requests) || ltb (wire_limit - 1024) size)
      (λ _. emit-Balances id _ st st refl (refl-Balances id st))
      (λ _. emit-Balances id _ st _ refl taken)

-- An event that only says something, or nothing
told-Balances :
    (id : Text) (b : Bool) (e f : Effect) (st : Peer)
    → completions id (e ∷ []) ≡ 0
    → completions id (f ∷ []) ≡ 0
    → Balances id st (if b then emit e st else emit f st)
told-Balances id b e f st p q =
    if_rule (Balances id st) b (λ _. emit-Balances id e st st p (refl-Balances id st))
      (λ _. emit-Balances id f st st q (refl-Balances id st))

maybe-Balances :
    (id : Text) (b : Bool) (e : Effect) (st : Peer)
    → completions id (e ∷ []) ≡ 0
    → Balances id st (if b then emit e st else st)
maybe-Balances id b e st p =
    if_rule (Balances id st) b (λ _. emit-Balances id e st st p (refl-Balances id st))
      (λ _. refl-Balances id st)

authenticate-Balances : (id : Text) (net : Net) (st : Peer) → Balances id st (authenticate net st)
unfolding authenticate completions
authenticate-Balances id net st = emit-Balances id _ st st refl (refl-Balances id st)

open_relay-Balances : (id : Text) (st : Peer) → Balances id st (open_relay st)
unfolding open_relay completions
open_relay-Balances id st =
    if_rule (Balances id st) st.running
      (λ _. emit-Balances id _ st _ refl (same-Balances id st _ refl refl))
      (λ _. same-Balances id st _ refl refl)

accept-Balances : (id : Text) (s : Socket) (now : ℕ) (st : Peer) → Balances id st (accept s now st)
unfolding accept completions
accept-Balances id s now st =
    if_rule (Balances id st) (leb 64 (length st.links))
      (λ _. emit-Balances id _ st st refl (refl-Balances id st))
      (λ _. same-Balances id st _ refl refl)

link_connected-Balances :
    (id : Text) (net : Net) (s : Socket) (scheme fingerprint : Text) (st : Peer)
    → Balances id st (link_connected net s scheme fingerprint st)
unfolding link_connected completions
link_connected-Balances id net s scheme fingerprint st =
    elim (Option-cases (Dict.find s st.links)) [
      | inl e ↦ rw e (refl-Balances id st)
      | inr (l, e) ↦ rw e (told-Balances id _ _ _ st refl refl)
    ]

other_delivery-Balances :
    (id j : Text) (result : Object) (st : Peer)
    → eq j id ≡ false
    → Balances id st (deliver_completion j result st)
unfolding deliver_completion completions
other_delivery-Balances id j result st n =
    emit-Balances id _ st st (ground (arith, n)) (refl-Balances id st)

relay_connected-Balances :
    (id : Text) (net : Net) (breaks : Option Text) (st : Peer)
    → Balances id st (relay_connected net breaks st)
unfolding relay_connected
relay_connected-Balances id net none st =
    trans-Balances (authenticate-Balances id net st) (same-Balances id _ _ refl refl)
relay_connected-Balances id net (some message) st =
    trans-Balances (authenticate-Balances id net st)
      (trans-Balances (relay_broken-Balances id message _) (same-Balances id _ _ refl refl))

step-Keeps :
    (id : Text) (net : Net) (now : ℕ) (e : Event) (st : Peer)
    → is_about id e ≡ false
    → Keeps (IsSteady e) id st (step net now e st)
unfolding step is_about completions refresh_peers create_pairing_offer claim_pairing_offer
    confirm_pairing cancel_pairing
step-Keeps id net now (starts o has_handler port listener_error relay_open) st n =
    of-Balances (start-Balances id net o has_handler port listener_error relay_open st)
step-Keeps id net now (stops relay_open) st n = of-Balances (stop-Balances id relay_open st)
step-Keeps id net now (relay_connects breaks) st n =
    of-Balances (relay_connected-Balances id net breaks st)
step-Keeps id net now relay_disconnects st n = of-Balances (relay_disconnected-Balances id st)
step-Keeps id net now reopens st n = of-Balances (open_relay-Balances id st)
step-Keeps id net now authenticates st n = of-Balances (authenticate-Balances id net st)
step-Keeps id net now refreshes st n = of-Balances (maybe-Balances id _ _ st refl)
step-Keeps id net now (relay_errors message) st n = of-Balances (relay_error-Balances id message st)
step-Keeps id net now (receives m answer s sent) st n =
    message-Keeps id net m answer s sent now st (λ s. s)
step-Keeps id net now (accepts s) st n = of-Balances (accept-Balances id s now st)
step-Keeps id net now (link_connects s scheme fingerprint) st n =
    of-Balances (link_connected-Balances id net s scheme fingerprint st)
step-Keeps id net now (link_receives s m answer sent) st n =
    link_message-Keeps id s m answer sent now st (λ s. s)
step-Keeps id net now (link_loses s) st n = of-Balances (lost-Balances id s st)
step-Keeps id net now (tries peer s sent) st n = next_local-Keeps id net peer s sent now st (λ s. s)
step-Keeps id net now (begins j sent) st n = start_request-Keeps id j sent now st (λ s. s)
step-Keeps id net now (requests j peer payload size) st n =
    of-Balances (other_request-Balances id j peer payload size now st n)
step-Keeps id net now (delivers j result) st n =
    of-Balances (other_delivery-Balances id j result st n)
step-Keeps id net now (offers_pairing j) st n = of-Balances (told-Balances id _ _ _ st refl refl)
step-Keeps id net now (claims_pairing j code host) st n =
    of-Balances (told-Balances id _ _ _ st refl refl)
step-Keeps id net now (confirms_pairing j) st n = of-Balances (maybe-Balances id _ _ st refl)
step-Keeps id net now (cancels_pairing j) st n = of-Balances (maybe-Balances id _ _ st refl)
step-Keeps id net now ticks st n = of-Balances (sweep-Balances id now st)

-- In every later state the account has not fallen, and if no send of a request has broken its
-- socket it is the same.
Later-grows :
    (id : Text) (net : Net) (Allows : Event → Type 0) (st : Peer) {u : Peer}
    → Later net id Allows st u
    → account_of id st ≤ account_of id u
Later-grows id net Allows st now_there = omega arith
Later-grows id net Allows st (goes_on {u} later now e n a) =
    omega (arith, Later-grows id net Allows st later, (step-Keeps id net now e u n).grows)

Later-exact :
    (id : Text) (net : Net) (st : Peer) {u : Peer}
    → Later net id IsSteady st u
    → account_of id u ≡ account_of id st
Later-exact id net st now_there = refl
Later-exact id net st (goes_on {u} later now e n a) =
    (step-Keeps id net now e u n).exact a ∙ Later-exact id net st later

accepted_account :
    (id peer : Text) (payload : Object) (size now : ℕ) (st : Peer)
    → account_of id st ≡ 0
    → length st.requests < 32
    → size ≤ 1047552
    → account_of id (request id peer payload size now st) ≡ 1
unfolding request completions put_request account_of emit
accepted_account id peer payload size now st new few small =
    let r : Pending = record {
      peer = peer;
      payload = payload;
      transport = [];
      socket = none;
      deadline = now + st.options.request_timeout_ms;
    } in
    ground (
      arith,
      new,
      few,
      small,
      Dict.contains-insert_self id r st.requests,
      completions-append id st.out (posts_start id ∷ []),
    )

-- A request that is taken on under a new identity, on a table with room and with a payload within
-- the limit, is in every later state still pending or has been completed at least once, also if
-- sends break their sockets.
pub request_lasts :
    (net : Net) (id peer : Text) (payload : Object) (size now : ℕ) (st u : Peer)
    → account_of id st ≡ 0
    → length st.requests < 32
    → size ≤ 1047552
    → Later net id (λ e. Unit) (request id peer payload size now st) u
    → (Dict.contains id u.requests ≡ true) ⊎ (1 ≤ completions id u.out)
unfolding account_of
request_lasts net id peer payload size now st u new few small later =
    let asked = accepted_account id peer payload size now st new few small in
    let more = Later-grows id net (λ e. Unit) (request id peer payload size now st) later in
    ground (arith, asked, more)

-- A request that is taken on under a new identity, on a table with room and with a payload within
-- the limit, is in every later state either still pending and not completed, or not pending and
-- completed exactly once, if no send of a request has broken its socket on the way.
pub request_settles :
    (net : Net) (id peer : Text) (payload : Object) (size now : ℕ) (st u : Peer)
    → account_of id st ≡ 0
    → length st.requests < 32
    → size ≤ 1047552
    → Later net id IsSteady (request id peer payload size now st) u
    → ((Dict.contains id u.requests ≡ true) × (completions id u.out ≡ 0))
      ⊎ ((Dict.contains id u.requests ≡ false) × (completions id u.out ≡ 1))
unfolding account_of
request_settles net id peer payload size now st u new few small later =
    let asked = accepted_account id peer payload size now st new few small in
    let same = Later-exact id net (request id peer payload size now st) later in
    ground (arith, asked, same)

-- ===== src/Lan/Proofs/Sweeps.antt =====
-- src/LanPeer.cpp: the invariant of a peer, through the client's operations, the timer, and the start
-- and the end of a host and of a client.
use ii_server_host.Prelude.Dict
use ii_server_host.Prelude.{
  ltb, leb, Option-cases, is_some, if_rule, length, ℕ, ◌≡◌, refl, inl, inr, Bool, false, ◌&&◌, ◌||◌,
  not, Option, List, [], ◌∷◌, arith,
}
use ii_server_host.Prelude.Text.{Text, Bytes, is_empty}
use ii_server_host.Json.{Object}
use ii_server_host.Protocol.{identifier, pin_certificate, is_over}
use ii_server_host.Prelude.Dict.{nat_eq, text_eq, Dict}
use ii_server_host.Lan.Link.{Links, decode_link, Digests}
use ii_server_host.Lan.State.{
  Socket, Effect, changes, Lan, emit, emit_all, drop_client, complete_all,
}
use ii_server_host.Lan.Client.{fail, address_at, open_address}
use ii_server_host.Lan.Events.{
  expire_offer, is_late, close_late, expire_request, expire_requests, stop,
  set_pairing_authentication, HostSetup, host_addresses, host_error, start_host, check_client,
  sweep, join,
}
use ii_server_host.Lan.Proofs.Tables.{IsTable}
use ii_server_host.Lan.Proofs.Sides.{side}
use ii_server_host.Lan.Proofs.Apart.{clients-fail, clients-open_address}
use ii_server_host.Lan.Proofs.Hosting.{HasTable}
use ii_server_host.Lan.Proofs.Joining.{
  HasSide, unpaired-HasSide, fail-HasSide, same-HasSide, open_address-HasSide,
  without_request-HasSide,
}
use ii_server_host.Lan.Proofs.Offers.{HasOffer, kept-HasOffer, hidden-HasOffer, fail-HasOffer}

-- The sessions of the host, what the joining side has agreed on, and the code that is shown
pub record IsSafe (st : Lan) : Type 0 where
  pub host : HasTable st
  pub client : HasSide st
  pub offer : HasOffer st

empty-IsTable : IsTable []
unfolding Dict.find
empty-IsTable = record {
  few = omega arith;
  sound = λ s a e. absurd (cc e);
  unique = λ s t a b e f i n. absurd (cc e);
}

pub same-HasTable : {st u : Lan} → HasTable st → u.clients ≡ st.clients → HasTable u
same-HasTable h e = record { table = rw e h.table }

-- Nobody is connected on either side, and nothing is shown.
pub blank-IsSafe :
    (u : Lan) → u.clients ≡ [] → u.client_paired ≡ false → u.requests ≡ [] → u.qr ≡ [] → IsSafe u
blank-IsSafe u c p r q = record {
  host = record { table = rw c empty-IsTable };
  client = unpaired-HasSide u p r;
  offer = hidden-HasOffer u q;
}

-- Fields change that the invariant does not look at.
pub same-IsSafe :
    {st u : Lan}
    → IsSafe st
    → u.clients ≡ st.clients
    → side u ≡ side st
    → u.qr ≡ st.qr
    → u.offer.code ≡ st.offer.code
    → IsSafe u
same-IsSafe h c s q o = record {
  host = same-HasTable h.host c;
  client = same-HasSide h.client s;
  offer = kept-HasOffer h.offer q o;
}

pub fail-IsSafe : (message : Text) (st : Lan) → HasTable st → IsSafe (fail message st)
fail-IsSafe message st h = record {
  host = same-HasTable h (clients-fail message st);
  client = fail-HasSide message st;
  offer = fail-HasOffer message st;
}

pub emit-IsSafe : (e : Effect) (st : Lan) → IsSafe st → IsSafe (emit e st)
unfolding emit
emit-IsSafe e st h = same-IsSafe h refl refl refl refl

module _ (digests : Digests) where
  open_address-HasOffer :
      (s : Socket) (now : ℕ) (st : Lan) → HasOffer st → HasOffer (open_address digests s now st)
  unfolding open_address drop_client emit emit_all
  open_address-HasOffer s now st h =
      elim (Option-cases (address_at st.address_index st.joining.addresses)) [
        | inl e ↦ rw e (fail-HasOffer _ _)
        | inr (address, e) ↦ rw e (
            if_rule HasOffer
              (not
                (is_some (pin_certificate digests.from_hex digests.to_hex st.joining.fingerprint)))
              (λ _. fail-HasOffer _ _) (λ _. kept-HasOffer h refl refl))
      ]

  pub open_address-IsSafe :
      (s : Socket) (now : ℕ) (st : Lan)
      → st.client_paired ≡ false
      → IsSafe st
      → IsSafe (open_address digests s now st)
  open_address-IsSafe s now st n h = record {
    host = same-HasTable h.host (clients-open_address digests s now st);
    client = open_address-HasSide digests s now st n h.client;
    offer = open_address-HasOffer s now st h.offer;
  }

  check_client-IsSafe :
      (now : ℕ) (s : Socket) (st : Lan) → IsSafe st → IsSafe (check_client digests now s st)
  unfolding check_client
  check_client-IsSafe now s st h =
      if_rule IsSafe (is_some st.client && not st.client_paired)
        (λ y.
          if_rule IsSafe (leb st.deadline now) (λ _. fail-IsSafe _ st h.host)
            λ _.
              if_rule IsSafe (not st.hello_sent && leb st.connect_deadline now)
                (λ _. open_address-IsSafe s now st (ground (arith, y)) h) (λ _. h))
        (λ _. h)

expire_offer-IsSafe : (now : ℕ) (st : Lan) → IsSafe st → IsSafe (expire_offer now st)
unfolding expire_offer emit
expire_offer-IsSafe now st h =
    if_rule IsSafe (not (is_empty st.qr) && is_over st.offer.expires_at now)
      (λ _. record {
        host = same-HasTable h.host refl;
        client = same-HasSide h.client refl;
        offer = hidden-HasOffer _ refl;
      })
      (λ _. if_rule IsSafe (not (is_empty st.qr)) (λ _. same-IsSafe h refl refl refl refl) (λ _. h))

close_late-IsSafe :
    (now : ℕ) (ss : List Socket) (st : Lan) → IsSafe st → IsSafe (close_late now ss st)
unfolding close_late
close_late-IsSafe now [] st h = h
close_late-IsSafe now (s ∷ ss) st h =
    close_late-IsSafe now ss _
      (if_rule IsSafe (is_late now (Dict.find s st.clients)) (λ _. emit-IsSafe _ st h) (λ _. h))

-- A request is taken off the table.
without_request-IsSafe :
    (id : Text) (st : Lan)
    → IsSafe st
    → IsSafe (record st { requests = Dict.remove id st.requests })
without_request-IsSafe id st h = record {
  host = same-HasTable h.host refl;
  client = without_request-HasSide id st h.client;
  offer = kept-HasOffer h.offer refl refl;
}

expire_requests-IsSafe :
    (now : ℕ) (ids : List Text) (st : Lan) → IsSafe st → IsSafe (expire_requests now ids st)
unfolding expire_requests expire_request
expire_requests-IsSafe now [] st h = h
expire_requests-IsSafe now (id ∷ ids) st h =
    expire_requests-IsSafe now ids _ (elim (Option-cases (Dict.find id st.requests)) [
      | inl e ↦ rw e h
      | inr (d, e) ↦ rw e (
          if_rule IsSafe (leb d now) (λ _. emit-IsSafe _ _ (without_request-IsSafe id st h))
            (λ _. h))
    ])

pub sweep-IsSafe :
    (digests : Digests) (now : ℕ) (s : Socket) (st : Lan)
    → IsSafe st
    → IsSafe (sweep digests now s st)
unfolding sweep
sweep-IsSafe digests now s st h =
    let a = expire_offer-IsSafe now st h in
    let b = close_late-IsSafe now (Dict.keys (expire_offer now st).clients) _ a in
    expire_requests-IsSafe now _ _ (check_client-IsSafe digests now s _ b)

pub stop-IsSafe : (st : Lan) → IsSafe (stop st)
unfolding stop complete_all drop_client emit emit_all
stop-IsSafe st = blank-IsSafe _ refl refl refl refl

pub set_pairing_authentication-IsSafe :
    (signer : Option (Bytes → Object)) (verifier : Option (Bytes → Object → Bool)) (st : Lan)
    → IsSafe (set_pairing_authentication signer verifier st)
unfolding set_pairing_authentication stop complete_all drop_client emit emit_all
set_pairing_authentication-IsSafe signer verifier st = blank-IsSafe _ refl refl refl refl

pub start_host-IsSafe :
    (links : Links) (setup : HostSetup) (host_id name : Text) (has_handler : Bool)
    (addresses : List Text) (st : Lan)
    → IsSafe (start_host links setup host_id name has_handler addresses st).1
unfolding start_host stop complete_all drop_client emit emit_all
start_host-IsSafe links setup host_id name has_handler addresses st =
    let stopped = stop-IsSafe st in
    elim (Option-cases
      (host_error links setup host_id name has_handler (host_addresses links setup addresses))) [
        | inl e ↦ rw e (blank-IsSafe _ refl refl refl refl)
        | inr (message, e) ↦ rw e (fail-IsSafe message _ stopped.host)
      ]

pub join-IsSafe :
    (digests : Digests) (links : Links) (qr peer name : Text) (s : Socket) (now : ℕ) (st : Lan)
    → IsSafe (join digests links qr peer name s now st).1
unfolding join stop complete_all drop_client emit emit_all
join-IsSafe digests links qr peer name s now st =
    let stopped = stop-IsSafe st in
    elim (Option-cases (decode_link links qr)) [
      | inl e ↦ rw e (fail-IsSafe _ (stop st) stopped.host)
      | inr (link, e) ↦ rw e (
          if_rule (λ (r : Bool × Lan). IsSafe r.1)
            (is_over link.expires_at now
              || not (identifier peer)
              || is_empty name
              || ltb 128 (length name))
            (λ _. fail-IsSafe _ (stop st) stopped.host)
            (λ _.
              emit-IsSafe changes _
                (open_address-IsSafe digests s now _ refl (blank-IsSafe _ refl refl refl refl))))
    ]

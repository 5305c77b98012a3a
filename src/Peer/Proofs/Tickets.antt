-- ===== src/Peer/Proofs/Tickets.antt =====
-- src/Peer.cpp: a link that comes in is let in with a ticket, and a ticket lets one link in.
use ii_server_host.Peer.Requests.{Sending}
use ii_server_host.Prelude.Dict
use ii_server_host.Prelude.{
  Bool-cases, ℕ, ◌≡◌, refl, sym, ap, ◌∙◌, ◌⊎◌, inl, inr, false≢true, true, false, ◌&&◌, Option,
  none, some, arith,
}
use ii_server_host.Prelude.Text.{Text, text, eq}
use ii_server_host.Json.{Object}
use ii_server_host.Protocol.{is_over}
use ii_server_host.Prelude.Dict.{nat_eq, text_eq, Dict}
use ii_server_host.Peer.State.{Socket, Ticket, Link, closes, Peer, emit, member}
use ii_server_host.Peer.Links.{takes, ticket_or, admit, greet, link_message}
use mathlib.Core.Option.{some-injective}

-- What a link that has been let in says of the ticket that its message named
pub record IsAdmitted (m : Object) (now : ℕ) (b : Link) (st u : Peer) : Type 0 where
  pub was_ready : st.ready ≡ true
  pub ticket :
      (t : Ticket) × (Dict.find (member (text "ticket") m) st.tickets ≡ some t)
      × (is_over t.expires now ≡ false)
      × (b.peer ≡ t.peer)
      × (b.expires ≡ t.expires)
  pub used_up : Dict.find (member (text "ticket") m) u.tickets ≡ none

takes_facts :
    (now : ℕ) (o : Option Ticket)
    → takes now o ≡ true
    → (t : Ticket) × (o ≡ some t) × (is_over t.expires now ≡ false)
takes_facts now none h = absurd (cc h)
takes_facts now (some t) h = (t, refl, ground (arith, h))

-- What letting in leaves: the link as it was let in, and the ticket gone
admit_facts :
    (s : Socket) (l b : Link) (ticket : Text) (t : Ticket) (st : Peer)
    → Dict.find s (admit s l ticket t st).links ≡ some b
    → (b.peer ≡ t.peer)
      × (b.expires ≡ t.expires)
      × (Dict.find ticket (admit s l ticket t st).tickets ≡ none)
unfolding admit emit
admit_facts s l b ticket t st f =
    let entered : Link = record l { peer = t.peer; expires = t.expires; authenticated = true } in
    let same : entered ≡ b =
      some-injective entered b (sym (Dict.find-insert_self s entered st.links) ∙ f) in
    (
      ap (λ (x : Link). x.peer) (sym same),
      ap (λ (x : Link). x.expires) (sym same),
      Dict.not-find-remove ticket st.tickets,
    )

greeted :
    (s : Socket) (m : Object) (answer : Option Object) (sent : Text → Sending) (now : ℕ) (a : Link)
    (st : Peer)
    → Dict.find s st.links ≡ some a
    → a.authenticated ≡ false
    → link_message s m answer sent now st ≡ greet s a m sent now st
unfolding link_message
greeted s m answer sent now a st e fresh = rw (e, fresh) refl

-- An incoming link is let in with a ticket that is there, or it is closed.
greet_cases :
    (s : Socket) (m : Object) (sent : Text → Sending) (now : ℕ) (a : Link) (st : Peer)
    → a.outgoing ≡ false
    → ((st.ready ≡ true)
        × (takes now (Dict.find (member (text "ticket") m) st.tickets) ≡ true)
        × (greet s a m sent now st
            ≡ admit s a
                (member (text "ticket") m)
                (ticket_or (Dict.find (member (text "ticket") m) st.tickets))
                st))
      ⊎ (greet s a m sent now st ≡ emit (closes s 1008 (text "Ticket required")) st)
unfolding greet
greet_cases s m sent now a st incoming =
    let hello = eq (member (text "type") m) (text "hello") in
    let good = takes now (Dict.find (member (text "ticket") m) st.tickets) in
    elim (Bool-cases (hello && st.ready && good)) [
      | inl y ↦ inl (ground (arith, y), ground (arith, y), rw (incoming, y) refl)
      | inr n ↦ inr (rw (incoming, n) refl)
    ]

-- An incoming link that a message lets in named a ticket of a ready peer that is on the table and
-- not over, takes its peer and its time from the ticket, and the ticket is then off the table.
pub ticket_once :
    (s : Socket) (m : Object) (answer : Option Object) (sent : Text → Sending) (now : ℕ)
    (a b : Link) (st : Peer)
    → Dict.find s st.links ≡ some a
    → a.outgoing ≡ false
    → a.authenticated ≡ false
    → Dict.find s (link_message s m answer sent now st).links ≡ some b
    → b.authenticated ≡ true
    → IsAdmitted m now b st (link_message s m answer sent now st)
unfolding emit
ticket_once s m answer sent now a b st e incoming fresh f admitted =
    let ticket = member (text "ticket") m in
    let via = greeted s m answer sent now a st e fresh in
    elim (greet_cases s m sent now a st incoming) [
      | inl (ready, good, done) ↦
          let facts = takes_facts now (Dict.find ticket st.tickets) good in
          let told =
            admit_facts s a b ticket (ticket_or (Dict.find ticket st.tickets)) st
              (rw (via, done) at f) in
          record {
            was_ready = ready;
            ticket = (facts.0, facts.1, facts.2, rw facts.1 at told.0, rw facts.1 at told.1);
            used_up = rw (via, done) told.2;
          }
      | inr closed ↦
          let same : a ≡ b = some-injective a b (sym e ∙ (rw (via, closed) at f)) in
          absurd (false≢true (sym fresh ∙ (rw (← same) at admitted)))
    ]

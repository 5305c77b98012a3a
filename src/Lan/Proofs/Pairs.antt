-- ===== src/Lan/Proofs/Pairs.antt =====
-- src/LanPeer.cpp: who becomes a device of the host, and how often an offer is good.
use ii_server_host.Prelude.Dict
use ii_server_host.Prelude.{ℕ, ◌≡◌, refl, true, false, Option, some, []}
use ii_server_host.Prelude.Text.{text, eq_refl, is_empty}
use ii_server_host.Json.{Object}
use ii_server_host.Prelude.Dict.{nat_eq, text_eq, Dict}
use ii_server_host.Lan.Link.{Links, Digests}
use ii_server_host.Lan.State.{Socket, Session, Lan, member}
use ii_server_host.Lan.Host.{reject, is_refused_pair, used_up, pair, host_session, host_message}
use ii_server_host.Lan.Steps.{Reached}
use ii_server_host.Lan.Proofs.Outcomes.{IsCovered, named-Used}

module _ (digests : Digests) where
  -- A socket without an identity that gets one from a message, in a state that is reached, has sent
  -- the host's identity and exactly the code of an offer that is shown and not over; its new
  -- identity is well-formed and not connected yet, is the expected peer if there is one, which then
  -- waits for approval, and the client's proof was verified if authentication is configured.
  pub pair_sound :
      (links : Links) (s : Socket) (m : Object) (now : ℕ) (a b : Session) (answer : Option Object)
      {st : Lan}
      → Reached links digests st
      → Dict.find s st.clients ≡ some a
      → is_empty a.id ≡ true
      → Dict.find s (host_message digests s m now answer st).clients ≡ some b
      → is_empty b.id ≡ false
      → IsCovered digests m now b st
  pair_sound links s m now a b answer r e unnamed f named =
      (named-Used digests links s m now a b answer r e unnamed f named).0

  refused_once :
      (s : Socket) (m : Object) (now : ℕ) (a : Session) (answer : Option Object) (u : Lan)
      → u.qr ≡ []
      → Dict.find s u.clients ≡ some a
      → is_empty a.id ≡ true
      → member (text "type") m ≡ text "pair"
      → host_message digests s m now answer u ≡ reject s used_up u
  unfolding host_message host_session pair is_refused_pair
  refused_once s m now a answer u hidden e unnamed type =
      rw (e, type, eq_refl (text "pair"), unnamed, hidden) refl

  -- Once a socket has got an identity by an offer, in a state that is reached, a `pair` message
  -- that comes next, from any socket without an identity, is rejected with the same error, whatever
  -- it says, and changes nothing else.
  pub offer_once :
      (links : Links) (s : Socket) (m : Object) (now : ℕ) (a b : Session) (answer : Option Object)
      {st : Lan} (s' : Socket) (m' : Object) (now' : ℕ) (a' : Session) (answer' : Option Object)
      → Reached links digests st
      → Dict.find s st.clients ≡ some a
      → is_empty a.id ≡ true
      → Dict.find s (host_message digests s m now answer st).clients ≡ some b
      → is_empty b.id ≡ false
      → Dict.find s' (host_message digests s m now answer st).clients ≡ some a'
      → is_empty a'.id ≡ true
      → member (text "type") m' ≡ text "pair"
      → host_message digests s' m' now' answer' (host_message digests s m now answer st)
        ≡ reject s' used_up (host_message digests s m now answer st)
  offer_once links s m now a b answer s' m' now' a' answer' r e unnamed f named e' unnamed' type =
      refused_once s' m' now' a' answer' _
        (named-Used digests links s m now a b answer r e unnamed f named).1.hidden e' unnamed' type

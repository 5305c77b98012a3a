-- ===== src/Peer/Loss.antt =====
-- src/Peer.cpp: what the end of a link and the end of the relay's socket leave.
use ii_server_host.Prelude.Dict
use ii_server_host.Prelude.Text.{Text, text, is_empty}
use ii_server_host.Protocol.{error}
use ii_server_host.Prelude.Dict.{nat_eq, text_eq, Dict}
use ii_server_host.Peer.State.{
  Socket, Pending, Link, aborts, changes_state, changes_peers, posts_next, Peer, emit, finish,
  finish_all, reset_local, schedule_reconnect,
}
use ii_server_host.Prelude.{
  ◌==◌, if◌then◌else◌, Bool, false, ◌&&◌, not, Option, none, some, List, [], ◌∷◌,
}

abbrev pub has_socket : Socket → Option Socket → Bool
has_socket s none = false
has_socket s (some t) = t == s

abbrev pub request_on : Socket → Option Pending → Bool
request_on s none = false
request_on s (some r) = has_socket s r.socket

unfoldable pub finish_on : Socket → List Text → Peer → Peer
finish_on s [] st = st
finish_on s (id ∷ ids) st = finish_on s ids (
    if request_on s (Dict.find id st.requests)
    then finish id (error (text "connection_lost")) st
    else st)

abbrev pub lose : Socket → Peer → Option Link → Peer
lose s st none = st
lose s st (some l) =
    let taken = emit (aborts s) (record st {
      links = Dict.remove s st.links;
      outbound =
          if has_socket s (Dict.find l.peer st.outbound)
          then Dict.remove l.peer st.outbound
          else st.outbound;
    }) in
    let ended = finish_on s (Dict.keys st.requests) taken in
    if l.outgoing && not l.authenticated then emit (posts_next l.peer) ended else ended

-- Private::lost
unfoldable pub lost : Socket → Peer → Peer
lost s st = lose s st (Dict.find s st.links)

-- The handler of the relay's errorOccurred
unfoldable pub relay_error : Text → Peer → Peer
relay_error message st =
    if not st.running
    then st
    else schedule_reconnect (
        emit changes_state
          (record st { error_text = if is_empty st.error_text then message else st.error_text }))

-- The handler of its disconnected
unfoldable pub relay_disconnected : Peer → Peer
relay_disconnected st =
    let cleared = record st { auth_active = false; ready = false; directory = []; account = [] } in
    let reset = reset_local cleared in
    let ended = finish_all (error (text "connection_lost")) (Dict.keys reset.requests) reset in
    schedule_reconnect (emit changes_peers (emit changes_state ended))

-- The relay's socket breaks: it signals its error, if it has one, and its end.
unfoldable pub relay_broken : Text → Peer → Peer
relay_broken message st =
    relay_disconnected (if is_empty message then st else relay_error message st)

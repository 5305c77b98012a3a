-- ===== src/Lan/Host.antt =====
-- src/LanPeer.cpp: the host's side, which shows an offer and takes devices on. `answer` is what the
-- request handler answers if it is called, `none` for an exception.
use ii_server_host.Prelude.Dict
use ii_server_host.Prelude.{
  ltb, if◌then◌else◌, is_some, length, ℕ, ◌+◌, Bool, true, false, ◌&&◌, ◌||◌, not, Option, none,
  some, [], ◌∷◌,
}
use ii_server_host.Prelude.Text.{Text, Bytes, text, eq, is_empty}
use ii_server_host.Json.{num, str, obj, Object, is_object, to_object, value, object, is_null_object}
use ii_server_host.Protocol.{identifier, is_over}
use ii_server_host.Prelude.Dict.{nat_eq, text_eq, Dict}
use ii_server_host.Lan.Link.{hex_token, same_code, Digests, authentication_context, verification}
use ii_server_host.Lan.State.{
  Socket, Session, verifying, confirming, paired_up, failed, closes, calls, changes, pairs, Lan,
  emit, send_to, put_session, without_code, member, signs, verifies, labelled, is_configured,
  is_one, opens_files, handled, list_files,
}

-- The `reject` of hostMessage
unfoldable pub reject : Socket → Text → Lan → Lan
reject s message st =
    emit (closes s)
      (send_to s (object ((text "type", str (text "error")) ∷ (text "error", str message) ∷ [])) st)

-- Does the offer not cover this `pair` message?
unfoldable pub is_refused_pair : Object → ℕ → Lan → Bool
is_refused_pair m now st =
    let id = member (text "peerId") m in
    let name = member (text "name") m in
    is_empty st.qr
    || is_over st.offer.expires_at now
    || not (eq (member (text "host") m) st.offer.host_id)
    || not (same_code (member (text "code") m) st.offer.code)
    || not (identifier id)
    || eq id st.offer.host_id
    || is_empty name
    || ltb 128 (length name)
    || (not (is_empty st.expected_peer)
        && (not (eq st.expected_peer id) || not (hex_token (member (text "nonce") m))))

-- Is a session under this identity connected?
unfoldable pub is_taken : Text → Dict Socket Session → Bool
is_taken id [] = false
is_taken id ((s, session) ∷ rest) = eq session.id id || is_taken id rest

unfoldable pub fails_proof : Object → Bytes → Lan → Bool
fails_proof m context st =
    is_configured st
    && (not (is_some st.signer)
        || not (is_some st.verifier)
        || not (hex_token (member (text "nonce") m))
        || not (
            verifies st.verifier (labelled (text "client") context)
              (to_object (value (text "proof") m))))

abbrev pub no_files : Text
no_files = text "The desktop could not open its Files."

-- The Files are listed for the device, which gets them with `ready`, or an error.
unfoldable pub open_files : Socket → Text → Object → Option Object → Lan → Lan
open_files s id proof answer st =
    let called = emit (calls id list_files) st in
    let files = handled answer in
    if not (opens_files files)
    then emit changes (reject s no_files (record called { error_text = no_files; phase = failed }))
    else emit changes (
        send_to s
          (object (
            (text "proof", obj proof)
            ∷ (text "type", str (text "ready"))
            ∷ (text "host", str st.offer.host_id)
            ∷ (text "files", obj files)
            ∷ []))
          (record called { phase = verifying }))

-- The session of a device whose `pair` message the offer covers
unfoldable pub named_session : Object → ℕ → Bool → Session → Session
named_session m now discovered session = record session {
  id = member (text "peerId") m;
  name = member (text "name") m;
  binary = is_one (value (text "binary") m);
  deadline = now + (if discovered then 60000 else 15000);
  awaiting_approval = discovered || session.awaiting_approval;
}

unfoldable pub can_confirm : Session → ℕ → Bool
can_confirm session now =
    not (is_empty session.id)
    && not session.paired
    && not session.awaiting_approval
    && ltb now session.deadline

-- The `confirm` branch
unfoldable pub confirm : Socket → Session → Lan → Lan
confirm s session st =
    let joined = record session { paired = true; iish_binary = session.binary } in
    let done = put_session s joined (record st { phase = paired_up }) in
    emit (pairs session.id) (
      emit changes (
        send_to s
          (object (
            (text "type", str (text "paired"))
            ∷ (text "host", str st.offer.host_id)
            ∷ (text "name", str st.offer.name)
            ∷ (text "binary", num (if session.binary then 1 else 0))
            ∷ []))
          done))

unfoldable pub can_request : Object → Session → Bool
can_request m session =
    session.paired && identifier (member (text "id") m) && is_object (value (text "payload") m)

-- The `request` branch
unfoldable pub serve : Socket → Object → Session → Option Object → Lan → Lan
serve s m session answer st =
    send_to s
      (object (
        (text "type", str (text "response"))
        ∷ (text "id", value (text "id") m)
        ∷ (text "result", obj (handled answer))
        ∷ []))
      (emit (calls session.id (to_object (value (text "payload") m))) st)

abbrev pub may_send_frames : Option Session → Bool
may_send_frames none = false
may_send_frames (some session) = session.paired && session.iish_binary

abbrev pub used_up : Text
used_up = text "This QR code is expired, cancelled, or already used. Show a new QR code."

module _ (digests : Digests) where
  -- The offer is consumed before the Files are opened or a success is reported.
  unfoldable pub consume : Socket → Object → ℕ → Session → Object → Option Object → Lan → Lan
  consume s m now session proof answer st =
      let id = member (text "peerId") m in
      let discovered = not (is_empty st.expected_peer) in
      let code =
        if discovered then verification digests st.offer id (member (text "nonce") m) else [] in
      let used = put_session s (named_session m now discovered session) (record st {
        verification_code = code;
        offer = without_code st.offer;
        qr = [];
        phase = if discovered then confirming else verifying;
        peer_name = member (text "name") m;
      }) in
      if discovered
      then emit changes (
          send_to s
            (object (
              (text "proof", obj proof)
              ∷ (text "type", str (text "verify"))
              ∷ (text "host", str st.offer.host_id)
              ∷ []))
            used)
      else open_files s id proof answer used

  -- The `pair` branch of hostMessage
  unfoldable pub pair : Socket → Object → ℕ → Session → Option Object → Lan → Lan
  pair s m now session answer st =
      let id = member (text "peerId") m in
      let context = authentication_context digests st.offer id (member (text "nonce") m) in
      let known = record session { authentication = context } in
      let kept = put_session s known st in
      let proof = signs st.signer (labelled (text "host") context) in
      if is_refused_pair m now st
      then reject s used_up st
      else if is_taken id st.clients
      then reject s (text "This device is already connected.") st
      else if fails_proof m context st
      then reject s (text "Device account authentication failed.") kept
      else if is_some st.signer && is_null_object proof
      then reject s (text "Host account authentication expired.") kept
      else consume s m now known proof answer kept

  unfoldable pub host_session : Socket → Object → ℕ → Option Object → Session → Lan → Lan
  host_session s m now answer session st =
      let type = member (text "type") m in
      if eq type (text "pair") && is_empty session.id
      then pair s m now session answer st
      else if eq type (text "confirm") && can_confirm session now
      then confirm s session st
      else if eq type (text "request") && can_request m session
      then serve s m session answer st
      else reject s (text "Pair the device before requesting Files.") st

  abbrev host_found : Socket → Object → ℕ → Option Object → Lan → Option Session → Lan
  host_found s m now answer st none = st
  host_found s m now answer st (some session) = host_session s m now answer session st

  -- Private::hostMessage
  unfoldable pub host_message : Socket → Object → ℕ → Option Object → Lan → Lan
  host_message s m now answer st = host_found s m now answer st (Dict.find s st.clients)

  -- The handler of binaryMessageReceived, on the decoded frame
  unfoldable pub host_frame : Socket → Object → ℕ → Option Object → Lan → Lan
  host_frame s m now answer st =
      if not (may_send_frames (Dict.find s st.clients))
      then emit (closes s) st
      else host_message s m now answer st

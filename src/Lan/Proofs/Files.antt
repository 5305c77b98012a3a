-- ===== src/Lan/Proofs/Files.antt =====
-- src/LanPeer.cpp: for whom a message to the host runs its request handler.
use mathlib.Core.List.{append-nil}
use ii_server_host.Prelude.Dict
use ii_server_host.Prelude.Dict.{nat_eq, text_eq, Dict}
use ii_server_host.Lan.Link.{Digests, authentication_context}
use ii_server_host.Prelude.{
  is_some, if_rule, ℕ, ◌≡◌, refl, ap, ◌∙◌, ◌⊎◌, inl, inr, true, false, ◌&&◌, not, Option, some,
  List, [], ◌∷◌, ◌++◌, arith,
}
use ii_server_host.Prelude.Text.{Text, text, eq, is_empty}
use ii_server_host.Json.{Object, to_object, value, is_null_object}
use ii_server_host.Lan.State.{
  Socket, Session, Effect, sends, closes, aborts, opens, calls, completes, changes, pairs,
  posts_completion, posts_request, Lan, emit, put_session, member, signs, labelled, opens_files,
  handled, list_files,
}
use ii_server_host.Lan.Host.{
  reject, is_refused_pair, is_taken, fails_proof, no_files, open_files, can_confirm, confirm,
  can_request, serve, consume, pair, host_session, host_message,
}

-- The runs of the request handler, in order
unfoldable pub calls_in : List Effect → List (Text × Object)
calls_in [] = []
calls_in (calls id payload ∷ es) = (id, payload) ∷ calls_in es
calls_in (_ ∷ es) = calls_in es

calls_in-append : (es fs : List Effect) → calls_in (es ++ fs) ≡ calls_in es ++ calls_in fs
unfolding calls_in
calls_in-append [] fs = refl
calls_in-append (calls id payload ∷ es) fs =
    ap (λ rest. (id, payload) ∷ rest) (calls_in-append es fs)
calls_in-append (sends _ _ ∷ es) fs = calls_in-append es fs
calls_in-append (closes _ ∷ es) fs = calls_in-append es fs
calls_in-append (aborts _ ∷ es) fs = calls_in-append es fs
calls_in-append (opens _ _ _ ∷ es) fs = calls_in-append es fs
calls_in-append (completes _ _ ∷ es) fs = calls_in-append es fs
calls_in-append (changes ∷ es) fs = calls_in-append es fs
calls_in-append (pairs _ ∷ es) fs = calls_in-append es fs
calls_in-append (posts_completion _ _ ∷ es) fs = calls_in-append es fs
calls_in-append (posts_request _ _ ∷ es) fs = calls_in-append es fs

-- An effect that runs nothing
quiet_append :
    (es : List Effect) (e : Effect) → calls_in (e ∷ []) ≡ [] → calls_in (es ++ e ∷ []) ≡ calls_in es
quiet_append es e q =
    calls_in-append es (e ∷ []) ∙ ap (λ cs. calls_in es ++ cs) q ∙ append-nil (calls_in es)

-- The runs that a state has seen are these.
record Ran (cs : List (Text × Object)) (u : Lan) : Type 0 where
  ran : calls_in u.out ≡ cs

quiet-Ran :
    (e : Effect) (cs : List (Text × Object)) (u : Lan)
    → calls_in (e ∷ []) ≡ []
    → Ran cs u
    → Ran cs (emit e u)
unfolding emit
quiet-Ran e cs u q h = record { ran = quiet_append u.out e q ∙ h.ran }

reject-Ran :
    (s : Socket) (message : Text) (cs : List (Text × Object)) (u : Lan)
    → Ran cs u
    → Ran cs (reject s message u)
unfolding reject calls_in
reject-Ran s message cs u h = quiet-Ran _ cs _ refl (quiet-Ran _ cs _ refl h)

open_files-Ran :
    (s : Socket) (id : Text) (proof : Object) (answer : Option Object) (u : Lan)
    → Ran (calls_in u.out ++ (id, list_files) ∷ []) (open_files s id proof answer u)
unfolding open_files emit calls_in
open_files-Ran s id proof answer u =
    let called : (v : Lan)
        → v.out ≡ u.out ++ calls id list_files ∷ []
        → Ran (calls_in u.out ++ (id, list_files) ∷ []) v =
      λ v e. record { ran = ap calls_in e ∙ calls_in-append u.out (calls id list_files ∷ []) } in
    if_rule (Ran (calls_in u.out ++ (id, list_files) ∷ [])) (not (opens_files (handled answer)))
      (λ _. quiet-Ran changes _ _ refl (reject-Ran s no_files _ _ (called _ refl)))
      (λ _. quiet-Ran changes _ _ refl (quiet-Ran _ _ _ refl (called _ refl)))

serve-Ran :
    (s : Socket) (m : Object) (a : Session) (answer : Option Object) (st : Lan)
    → Ran
        (calls_in st.out ++ (a.id, to_object (value (text "payload") m)) ∷ [])
        (serve s m a answer st)
unfolding serve emit calls_in
serve-Ran s m a answer st =
    let run = calls a.id (to_object (value (text "payload") m)) in
    quiet-Ran _ _ _ refl (record { ran = calls_in-append st.out (run ∷ []) })

-- The runs of the handler after a message: none, the request of a paired session, or one listing
-- for the device that the offer is consumed for, when no approval is asked for.
pub record IsServed (m : Object) (now : ℕ) (a : Session) (st u : Lan) : Type 0 where
  pub served :
      (calls_in u.out ≡ calls_in st.out)
      ⊎ (((a.paired ≡ true)
            × (calls_in u.out
                ≡ calls_in st.out ++ (a.id, to_object (value (text "payload") m)) ∷ []))
          ⊎ ((is_empty a.id ≡ true)
              × (is_empty st.expected_peer ≡ true)
              × (is_refused_pair m now st ≡ false)
              × (calls_in u.out ≡ calls_in st.out ++ (member (text "peerId") m, list_files) ∷ [])))

silent :
    {m : Object} {now : ℕ} {a : Session} {st u : Lan}
    → Ran (calls_in st.out) u
    → IsServed m now a st u
silent h = record { served = inl h.ran }

module _ (digests : Digests) where
  pair-IsServed :
      (s : Socket) (m : Object) (now : ℕ) (a : Session) (answer : Option Object) (st : Lan)
      → is_empty a.id ≡ true
      → IsServed m now a st (pair digests s m now a answer st)
  unfolding pair put_session consume calls_in
  pair-IsServed s m now a answer st unnamed =
      let id = member (text "peerId") m in
      let context = authentication_context digests st.offer id (member (text "nonce") m) in
      let proof = signs st.signer (labelled (text "host") context) in
      let P : Lan → Type 0 = λ u. IsServed m now a st u in
      let cs = calls_in st.out in
      if_rule P (is_refused_pair m now st)
        (λ _. silent (reject-Ran s _ cs st (record { ran = refl })))
        λ fresh.
          if_rule P (is_taken id st.clients)
            (λ _. silent (reject-Ran s _ cs st (record { ran = refl })))
            λ _.
              if_rule P (fails_proof m context st)
                (λ _. silent (reject-Ran s _ cs _ (record { ran = refl })))
                λ _.
                  if_rule P (is_some st.signer && is_null_object proof)
                    (λ _. silent (reject-Ran s _ cs _ (record { ran = refl })))
                    λ _.
                      if_rule P (not (is_empty st.expected_peer))
                        (λ _. silent (
                          quiet-Ran changes cs _ refl
                            (quiet-Ran _ cs _ refl (record { ran = refl }))))
                        (λ n. record {
                          served = inr (
                              inr (
                                unnamed,
                                ground (arith, n),
                                fresh,
                                (open_files-Ran s id proof answer _).ran,
                              ));
                        })

  -- A message to the host runs the request handler for a paired session, on the payload of the
  -- message, or to list the Files once for a device that the offer covers and that needs no
  -- approval, or not at all.
  pub calls_sound :
      (s : Socket) (m : Object) (now : ℕ) (a : Session) (answer : Option Object) (st : Lan)
      → Dict.find s st.clients ≡ some a
      → IsServed m now a st (host_message digests s m now answer st)
  unfolding host_message host_session confirm put_session can_request emit calls_in
  calls_sound s m now a answer st e =
      let type = member (text "type") m in
      let P : Lan → Type 0 = λ u. IsServed m now a st u in
      rw e (
        if_rule P (eq type (text "pair") && is_empty a.id)
          (λ y. pair-IsServed s m now a answer st (ground (arith, y)))
          λ _.
            if_rule P (eq type (text "confirm") && can_confirm a now)
              (λ _. silent (
                quiet-Ran _ _ _ refl
                  (quiet-Ran changes _ _ refl (quiet-Ran _ _ _ refl (record { ran = refl })))))
              λ _.
                if_rule P (eq type (text "request") && can_request m a)
                  (λ y. record {
                    served = inr (inl (ground (arith, y), (serve-Ran s m a answer st).ran));
                  })
                  (λ _. silent (reject-Ran s _ _ st (record { ran = refl }))))

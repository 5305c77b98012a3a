-- ===== src/Lan/Proofs/Deadlines.antt =====
-- src/LanPeer.cpp: the timer ends every request whose time is over.
use ii_server_host.Lan.Link.{Digests}
use ii_server_host.Prelude.Dict
use ii_server_host.Prelude.{
  leb, if◌then◌else◌, Bool-cases, Option-cases, is_some, if_rule, ℕ, ◌≤◌, ◌≡◌, refl, sym, ◌∙◌, ◌≢◌,
  ◌⊎◌, inl, inr, false≢true, Bool, true, false, ◌&&◌, ◌||◌, not, none, some, List, [], ◌∷◌, ◌++◌,
  arith,
}
use ii_server_host.Prelude.Text.{Text, text, eq, eq_refl, eq_iff}
use ii_server_host.Json.{Object}
use ii_server_host.Protocol.{error, pin_certificate}
use ii_server_host.Prelude.Dict.{nat_eq, text_eq, Dict, keys}
use ii_server_host.Lan.State.{
  Socket, Effect, sends, closes, aborts, opens, calls, completes, changes, pairs, posts_completion,
  posts_request, Lan, emit, emit_all, drop_client, completions, complete_all,
}
use ii_server_host.Lan.Client.{fail, address_at, open_address}
use ii_server_host.Lan.Events.{
  expire_offer, is_late, close_late, expire_request, expire_requests, stop, check_client, sweep,
}

-- Is the completion of this request among what was done?
unfoldable pub is_completed : Text → List Effect → Bool
is_completed id [] = false
is_completed id (completes j result ∷ es) = eq j id || is_completed id es
is_completed id (_ ∷ es) = is_completed id es

is_completed-append :
    (id : Text) (es fs : List Effect)
    → is_completed id (es ++ fs) ≡ (is_completed id es || is_completed id fs)
unfolding is_completed
is_completed-append id [] fs = refl
is_completed-append id (completes j result ∷ es) fs = ground (arith, is_completed-append id es fs)
is_completed-append id (sends _ _ ∷ es) fs = is_completed-append id es fs
is_completed-append id (closes _ ∷ es) fs = is_completed-append id es fs
is_completed-append id (aborts _ ∷ es) fs = is_completed-append id es fs
is_completed-append id (opens _ _ _ ∷ es) fs = is_completed-append id es fs
is_completed-append id (calls _ _ ∷ es) fs = is_completed-append id es fs
is_completed-append id (changes ∷ es) fs = is_completed-append id es fs
is_completed-append id (pairs _ ∷ es) fs = is_completed-append id es fs
is_completed-append id (posts_completion _ _ ∷ es) fs = is_completed-append id es fs
is_completed-append id (posts_request _ _ ∷ es) fs = is_completed-append id es fs

-- The request is over, and its owner has been told.
pub record Ended (id : Text) (st : Lan) : Type 0 where
  pub told : is_completed id st.out ≡ true
  pub gone : Dict.find id st.requests ≡ none

is_completed-completions :
    (id : Text) (result : Object) (ids : List Text)
    → Dict.listed id ids ≡ true
    → is_completed id (completions result ids) ≡ true
unfolding is_completed completions
is_completed-completions id result [] h = absurd (cc h)
is_completed-completions id result (j ∷ ids) h =
    ground (arith, is_completed-completions id result ids, h)

emit-Ended : (e : Effect) (id : Text) (st : Lan) → Ended id st → Ended id (emit e st)
unfolding emit
emit-Ended e id st h = record {
  told = ground (arith, is_completed-append id st.out (e ∷ []), h.told);
  gone = h.gone;
}

-- Completing everything ends each pending request.
complete_all-Ended :
    (id : Text) (result : Object) (deadline : ℕ) (st : Lan)
    → Dict.find id st.requests ≡ some deadline
    → Ended id (complete_all result st)
unfolding complete_all emit_all
complete_all-Ended id result deadline st h =
    let keys = Dict.keys st.requests in
    let all =
      is_completed-completions id result keys (Dict.listed-keys id st.requests deadline h) in
    record {
      told = ground (arith, is_completed-append id st.out (completions result keys), all);
      gone = unfold Dict.find in refl;
    }

-- A failure ends each pending request.
pub fail-Ended :
    (message : Text) (id : Text) (deadline : ℕ) (st : Lan)
    → Dict.find id st.requests ≡ some deadline
    → Ended id (fail message st)
unfolding fail drop_client emit_all
fail-Ended message id deadline st h = emit-Ended changes id _ (complete_all-Ended id _ deadline _ h)

-- Stopping ends each pending request.
pub stop-Ended :
    (id : Text) (deadline : ℕ) (st : Lan)
    → Dict.find id st.requests ≡ some deadline
    → Ended id (stop st)
unfolding stop drop_client emit_all
stop-Ended id deadline st h = emit-Ended changes id _ (complete_all-Ended id _ deadline _ h)

expire_request-Ended :
    (now : ℕ) (j id : Text) (st : Lan) → Ended id st → Ended id (expire_request now j st)
unfolding expire_request emit
expire_request-Ended now j id st h = elim (Option-cases (Dict.find j st.requests)) [
  | inl e ↦ rw e h
  | inr (d, e) ↦ rw e (
      if_rule (Ended id) (leb d now)
        (λ _. record {
          told = ground (
            arith,
            is_completed-append id st.out (completes j (error (text "timeout")) ∷ []),
            h.told,
          );
          gone = ground (arith, Dict.find-remove j id st.requests, h.gone);
        })
        (λ _. h))
]

expire_requests-Ended :
    (now : ℕ) (ids : List Text) (id : Text) (st : Lan)
    → Ended id st
    → Ended id (expire_requests now ids st)
unfolding expire_requests
expire_requests-Ended now [] id st h = h
expire_requests-Ended now (j ∷ ids) id st h =
    expire_requests-Ended now ids id (expire_request now j st) (expire_request-Ended now j id st h)

expire_request_own :
    (now : ℕ) (id : Text) (deadline : ℕ) (st : Lan)
    → Dict.find id st.requests ≡ some deadline
    → deadline ≤ now
    → Ended id (expire_request now id st)
unfolding expire_request emit is_completed
expire_request_own now id deadline st h late =
    let over : leb deadline now ≡ true = ground (arith, late) in
    rw (h, over)
      (record {
        told = ground (
          arith,
          is_completed-append id st.out (completes id (error (text "timeout")) ∷ []),
          eq_refl id,
        );
        gone = Dict.not-find-remove id st.requests;
      })

expire_request_other :
    (now : ℕ) (j id : Text) (deadline : ℕ) (st : Lan)
    → j ≢ id
    → Dict.find id st.requests ≡ some deadline
    → Dict.find id (expire_request now j st).requests ≡ some deadline
unfolding expire_request emit
expire_request_other now j id deadline st n h =
    ground (arith, h, n, eq_iff j id, Dict.find-remove j id st.requests)

-- Going through the pending requests ends this one, if its time is over.
expire_requests_own :
    (now : ℕ) (ids : List Text) (id : Text) (deadline : ℕ) (st : Lan)
    → Dict.listed id ids ≡ true
    → Dict.find id st.requests ≡ some deadline
    → deadline ≤ now
    → Ended id (expire_requests now ids st)
unfolding expire_requests
expire_requests_own now [] id deadline st l h late = absurd (cc l)
expire_requests_own now (j ∷ ids) id deadline st l h late = elim (Bool-cases (eq j id)) [
  | inl y ↦
      let same : j ≡ id = (eq_iff j id).0 y in
      expire_requests-Ended now ids id (expire_request now j st)
        (rw same (expire_request_own now id deadline st h late))
  | inr n ↦
      let other : j ≢ id = λ e. false≢true (sym n ∙ (eq_iff j id).1 e) in
      expire_requests_own now ids id deadline (expire_request now j st) (ground (arith, l, n))
        (expire_request_other now j id deadline st other h) late
]

requests-expire_offer : (now : ℕ) (st : Lan) → (expire_offer now st).requests ≡ st.requests
unfolding expire_offer emit
requests-expire_offer now st = ground arith

requests-close_late :
    (now : ℕ) (ss : List Socket) (st : Lan) → (close_late now ss st).requests ≡ st.requests
unfolding close_late emit
requests-close_late now [] st = refl
requests-close_late now (s ∷ ss) st =
    let here : (if is_late now (Dict.find s st.clients) then emit (closes s) st else st).requests
        ≡ st.requests =
      ground arith in
    requests-close_late now ss _ ∙ here

module _ (digests : Digests) where
  -- The part on the client's socket keeps a pending request, or has ended it.
  check_client_keeps :
      (now : ℕ) (s : Socket) (id : Text) (deadline : ℕ) (st : Lan)
      → Dict.find id st.requests ≡ some deadline
      → (Dict.find id (check_client digests now s st).requests ≡ some deadline)
        ⊎ Ended id (check_client digests now s st)
  unfolding check_client open_address drop_client emit emit_all
  check_client_keeps now s id deadline st h =
      let P : Lan → Type 0 = λ u. (Dict.find id u.requests ≡ some deadline) ⊎ Ended id u in
      if_rule P (is_some st.client && not st.client_paired)
        (λ _.
          if_rule P (leb st.deadline now) (λ _. inr (fail-Ended _ id deadline st h))
            λ _.
              if_rule P (not st.hello_sent && leb st.connect_deadline now)
                (λ _. elim (Option-cases (address_at st.address_index st.joining.addresses)) [
                  | inl e ↦ rw e (inr (fail-Ended _ id deadline _ h))
                  | inr (address, e) ↦ rw e (
                      if_rule P
                        (not (
                          is_some (
                            pin_certificate digests.from_hex digests.to_hex
                              st.joining.fingerprint)))
                        (λ _. inr (fail-Ended _ id deadline _ h)) (λ _. inl h))
                ])
                (λ _. inl h))
        (λ _. inl h)

  -- A pending request whose deadline has come is completed by the timer and is pending no more,
  -- whichever else the timer does.
  pub sweep-Ended :
      (now : ℕ) (s : Socket) (id : Text) (deadline : ℕ) (st : Lan)
      → Dict.find id st.requests ≡ some deadline
      → deadline ≤ now
      → Ended id (sweep digests now s st)
  unfolding sweep
  sweep-Ended now s id deadline st h late =
      let a = expire_offer now st in
      let b = close_late now (Dict.keys a.clients) a in
      let c = check_client digests now s b in
      let same : b.requests ≡ st.requests =
        requests-close_late now (Dict.keys a.clients) a ∙ requests-expire_offer now st in
      elim (check_client_keeps now s id deadline b (rw same h)) [
        | inl k ↦
            expire_requests_own now (Dict.keys c.requests) id deadline c
              (Dict.listed-keys id c.requests deadline k) k late
        | inr done ↦ expire_requests-Ended now (Dict.keys c.requests) id c done
      ]

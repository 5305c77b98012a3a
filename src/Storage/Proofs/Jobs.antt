-- ===== src/Storage/Proofs/Jobs.antt =====
-- At most four children run, no output grows beyond its limit, and a job ends once.
use ii_server_host.Prelude.Checks.{◌otherwise◌, fail_if}
use ii_server_host.Prelude.Int.{ℤ, negsuc, is_positive}
use ii_server_host.Storage.Backend.{Files, validate_backend, validate_location}
use ii_server_host.Prelude.Dict
use ii_server_host.Prelude.{
  ltb, if◌then◌else◌, Bool-cases, Option-cases, if_rule, length, length-append, any, ◌+◌, ◌≤◌, ◌≡◌,
  refl, inl, inr, Bool, true, false, ◌&&◌, not, Option, none, some, List, [], ◌∷◌, ◌++◌, arith,
}
use ii_server_host.Prelude.Text.{Text, Bytes, text, eq, eq_iff, is_empty}
use ii_server_host.Prelude.Dict.{nat_eq, text_eq, Dict}
use ii_server_host.Json.{Json}
use ii_server_host.Storage.Jobs.{
  StorageRequest, StorageResult, BridgeJob, Bridge, is_providers, has_destination, is_other,
  gives_json, new_job, output_limit, request_error, start_job, drop_key, finish_found, finish,
  read_found, read_output, start_failed_found, start_failed, time_out_found, time_out, cancel_found,
  cancel_job, delivered, deliver_result,
}

pub record IsTidy (d : Bridge) : Type 0 where
  pub few : length d.table ≤ 4
  pub bounded :
      (id : Text) (job : BridgeJob)
      → Dict.find id d.objects ≡ some job
      → length job.output ≤ output_limit
  pub ended :
      (id : Text) (job : BridgeJob)
      → Dict.find id d.objects ≡ some job
      → job.completed ≡ not (Dict.listed id d.table)

length-drop_key : (id : Text) (ks : List Text) → length (drop_key id ks) ≤ length ks
unfolding drop_key
length-drop_key id [] = omega arith
length-drop_key id (k ∷ ks) = ground (arith, length-drop_key id ks)

listed-drop_key :
    (id k : Text) (ks : List Text)
    → Dict.listed k (drop_key id ks) ≡ (Dict.listed k ks && not (eq id k))
unfolding drop_key
listed-drop_key id k [] = refl
listed-drop_key id k (j ∷ ks) =
    ground (arith, listed-drop_key id k ks, eq_iff id j, eq_iff j k, eq_iff id k, eq_iff j id)

-- A job object is replaced by one that is as ended, and keeps within the limit.
put-IsTidy :
    (id : Text) (job new : BridgeJob) (d d' : Bridge)
    → IsTidy d
    → Dict.find id d.objects ≡ some job
    → new.completed ≡ job.completed
    → length new.output ≤ output_limit
    → d'.table ≡ d.table
    → d'.objects ≡ Dict.insert id new d.objects
    → IsTidy d'
put-IsTidy id job new d d' v e c b t o = record {
  few = rw t v.few;
  bounded = λ k j f. ground (arith, Dict.find-insert id k new d.objects, f, o, v.bounded k j, b);
  ended = λ k j f. ground (
    arith,
    Dict.find-insert id k new d.objects,
    f,
    o,
    t,
    v.ended k j,
    v.ended id job,
    e,
    c,
    eq_iff id k,
  );
}

-- Replacing a job that is not there changes nothing; else it is enough to see its new value.
found-IsTidy :
    (id : Text) (act : Option BridgeJob → Bridge) (d : Bridge)
    → IsTidy d
    → act none ≡ d
    → ((job : BridgeJob) → Dict.find id d.objects ≡ some job → IsTidy (act (some job)))
    → IsTidy (act (Dict.find id d.objects))
found-IsTidy id act d v n f = elim (Option-cases (Dict.find id d.objects)) [
  | inl e ↦ rw (e, n) v
  | inr (job, e) ↦ rw e (f job e)
]

read-IsTidy : (id : Text) (bytes : Bytes) (d : Bridge) → IsTidy d → IsTidy (read_output id bytes d)
unfolding read_output
read-IsTidy id bytes d v =
    found-IsTidy id (λ o. read_found id bytes o d) d v refl
      (λ job e.
        if_rule IsTidy (not job.json) (λ _. v)
          (λ _.
            if_rule IsTidy (ltb output_limit (length job.output + length bytes))
              (λ _.
                put-IsTidy id job (record job { failure = text "result_size_limit_exceeded" }) d _ v
                  e refl (v.bounded id job e) refl refl)
              (λ s.
                put-IsTidy id job (record job { output = job.output ++ bytes }) d _ v e refl
                  (ground (arith, s, length-append job.output bytes)) refl refl)))

start_failed_found-IsTidy :
    (id : Text) (d : Bridge) → IsTidy d → IsTidy (start_failed_found id (Dict.find id d.objects) d)
start_failed_found-IsTidy id d v =
    found-IsTidy id (λ o. start_failed_found id o d) d v refl
      (λ job e.
        put-IsTidy id job (record job { failure = text "backend_start_failed" }) d _ v e refl
          (v.bounded id job e) refl refl)

time_out-IsTidy : (id : Text) (d : Bridge) → IsTidy d → IsTidy (time_out id d)
unfolding time_out
time_out-IsTidy id d v =
    found-IsTidy id (λ o. time_out_found id o d) d v refl
      (λ job e.
        put-IsTidy id job (record job { failure = text "timeout" }) d _ v e refl
          (v.bounded id job e) refl refl)

cancel-IsTidy : (id : Text) (d : Bridge) → IsTidy d → IsTidy (cancel_job id d)
unfolding cancel_job
cancel-IsTidy id d v =
    if_rule IsTidy (any (λ k. eq k id) d.table)
      (λ _.
        found-IsTidy id (λ o. cancel_found id o d) d v refl
          (λ job e.
            put-IsTidy id job (record job { cancelled = true }) d _ v e refl (v.bounded id job e)
              refl refl))
      (λ _. v)

finish-IsTidy :
    (parse : Bytes → Option Json) (id : Text) (code : ℤ) (normal : Bool) (d : Bridge)
    → IsTidy d
    → IsTidy (finish parse id code normal d)
unfolding finish
finish-IsTidy parse id code normal d v =
    found-IsTidy id (λ o. finish_found parse id code normal o d) d v refl
      (λ job e.
        if_rule IsTidy job.completed (λ _. v)
          (λ _. record {
            few = omega (arith, v.few, length-drop_key id d.table);
            bounded = λ k j f. ground (
              arith,
              Dict.find-insert id k (record job { completed = true }) d.objects,
              f,
              v.bounded k j,
              v.bounded id job e,
            );
            ended = λ k j f. ground (
              arith,
              Dict.find-insert id k (record job { completed = true }) d.objects,
              f,
              v.ended k j,
              listed-drop_key id k d.table,
              eq_iff id k,
            );
          }))

otherwise_last : (a b : Text) → is_empty (a otherwise b) ≡ true → is_empty b ≡ true
otherwise_last [] b e = e
otherwise_last (u ∷ us) b e = cc

start_room :
    (files : Files) (r : StorageRequest) (d : Bridge)
    → is_empty (request_error files r d) ≡ true
    → ltb (length d.table) 4 ≡ true
unfolding request_error text
start_room files r d e =
    if_rule (λ t. is_empty t ≡ true → ltb (length d.table) 4 ≡ true) (is_other r.operation)
      {x = text "unsupported_operation"} (λ _ n. cc)
      (λ _ n. ground (
        arith,
        otherwise_last (fail_if (not (is_positive r.timeout_ms)) "invalid_timeout") _ (
            otherwise_last
              (if has_destination r.operation
                then validate_location files r.destination d.options
                else [])
              _
              (otherwise_last
                (if is_providers r.operation
                  then []
                  else validate_location files r.source d.options)
                _ (otherwise_last (validate_backend files d.options true) _ n))),
      ))
      e

start-IsTidy :
    (files : Files) (id : Text) (r : StorageRequest) (d : Bridge)
    → Dict.find id d.objects ≡ none
    → IsTidy d
    → IsTidy (start_job files id r d)
unfolding start_job
start-IsTidy files id r d n v =
    if_rule IsTidy (is_empty (request_error files r d))
      (λ e. record {
        few = ground (arith, start_room files r d e);
        bounded = λ k j f. ground (
          arith,
          Dict.find-insert id k (new_job (gives_json r.operation)) d.objects,
          f,
          v.bounded k j,
        );
        ended = λ k j f. ground (
          arith,
          Dict.find-insert id k (new_job (gives_json r.operation)) d.objects,
          f,
          v.ended k j,
          eq_iff id k,
        );
      })
      (λ _. record { few = v.few; bounded = v.bounded; ended = v.ended })

-- The steps of a bridge. A new job has a new UUID.
pub data Step (files : Files) (parse : Bytes → Option Json) : Bridge → Bridge → Type 0 where
  starts :
      {d : Bridge} (id : Text) (r : StorageRequest)
      → Dict.find id d.objects ≡ none
      → Step files parse d (start_job files id r d)
  reads_output :
      {d : Bridge} (id : Text) (bytes : Bytes) → Step files parse d (read_output id bytes d)
  finishes :
      {d : Bridge} (id : Text) (code : ℤ) (normal : Bool)
      → Step files parse d (finish parse id code normal d)
  fails_to_start : {d : Bridge} (id : Text) → Step files parse d (start_failed parse id d)
  times_out : {d : Bridge} (id : Text) → Step files parse d (time_out id d)
  cancels : {d : Bridge} (id : Text) → Step files parse d (cancel_job id d)
  delivers : {d : Bridge} → Step files parse d (deliver_result d)

delivered-IsTidy :
    (ps : List (Text × StorageResult)) (d : Bridge) → IsTidy d → IsTidy (delivered ps d)
delivered-IsTidy [] d v = v
delivered-IsTidy (p ∷ ps) d v = record { few = v.few; bounded = v.bounded; ended = v.ended }

-- Each step of a storage bridge keeps these: at most four entries in the table, no output beyond
-- sixteen mebibytes, and a job is completed exactly if it is not in the table. A new job has a new
-- identity.
pub step-IsTidy :
    (files : Files) (parse : Bytes → Option Json) {d d' : Bridge}
    → Step files parse d d'
    → IsTidy d
    → IsTidy d'
unfolding start_failed deliver_result
step-IsTidy files parse (starts {d} id r n) v = start-IsTidy files id r d n v
step-IsTidy files parse (reads_output {d} id bytes) v = read-IsTidy id bytes d v
step-IsTidy files parse (finishes {d} id code normal) v = finish-IsTidy parse id code normal d v
step-IsTidy files parse (fails_to_start {d} id) v =
    finish-IsTidy parse id (negsuc 0) false _ (start_failed_found-IsTidy id d v)
step-IsTidy files parse (times_out {d} id) v = time_out-IsTidy id d v
step-IsTidy files parse (cancels {d} id) v = cancel-IsTidy id d v
step-IsTidy files parse (delivers {d}) v = delivered-IsTidy d.pending d v

finish-completed :
    (parse : Bytes → Option Json) (id : Text) (code : ℤ) (normal : Bool) (d : Bridge)
    (job : BridgeJob)
    → Dict.find id d.objects ≡ some job
    → job.completed ≡ true
    → finish parse id code normal d ≡ d
unfolding finish
finish-completed parse id code normal d job e c = rw (e, c) refl

finish-absent :
    (parse : Bytes → Option Json) (id : Text) (code : ℤ) (normal : Bool) (d : Bridge)
    → Dict.find id d.objects ≡ none
    → finish parse id code normal d ≡ d
unfolding finish
finish-absent parse id code normal d e = rw e refl

finish-marks :
    (parse : Bytes → Option Json) (id : Text) (code : ℤ) (normal : Bool) (d : Bridge)
    (job : BridgeJob)
    → Dict.find id d.objects ≡ some job
    → job.completed ≡ false
    → Dict.find id (finish parse id code normal d).objects ≡ some (record job { completed = true })
unfolding finish
finish-marks parse id code normal d job e c =
    rw (e, c) (Dict.find-insert_self id (record job { completed = true }) d.objects)

-- A job that has finished does not finish again: the second call changes nothing.
pub finish_once :
    (parse : Bytes → Option Json) (id : Text) (code code' : ℤ) (normal normal' : Bool) (d : Bridge)
    → finish parse id code' normal' (finish parse id code normal d) ≡ finish parse id code normal d
finish_once parse id code code' normal normal' d = elim (Option-cases (Dict.find id d.objects)) [
  | inl e ↦
      rw (finish-absent parse id code normal d e, finish-absent parse id code' normal' d e) refl
  | inr (job, e) ↦ elim (Bool-cases job.completed) [
    | inl c ↦
        rw
          (
            finish-completed parse id code normal d job e c,
            finish-completed parse id code' normal' d job e c,
          )
          refl
    | inr c ↦
        finish-completed parse id code' normal' _ (record job { completed = true })
          (finish-marks parse id code normal d job e c) refl
  ]
]

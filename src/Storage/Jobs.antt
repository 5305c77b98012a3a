-- ===== src/Storage/Jobs.antt =====
-- `StorageBridge`: the table of child processes. A job object outlives its entry in the table, as
-- the closures keep it.
use ii_server_host.Prelude.Checks.{◌otherwise◌, fail_if}
use ii_server_host.Prelude.Dict
use ii_server_host.Prelude.{
  ltb, leb, if◌then◌else◌, is_some, length, any, ℕ, ◌+◌, Bool, true, false, ◌||◌, not, Option, none,
  some, List, [], ◌∷◌, ◌++◌,
}
use ii_server_host.Prelude.Text.{Text, Bytes, text, eq, is_empty}
use ii_server_host.Prelude.Dict.{nat_eq, text_eq, Dict}
use ii_server_host.Prelude.Int.{ℤ, negsuc, is_positive, is_zero}
use ii_server_host.Json.{Json, null, arr, obj}
use ii_server_host.Storage.Backend.{
  Files, BackendOptions, executable_of, validate_backend, validate_location, environment,
  common_arguments,
}

pub data StorageOperation : Type 0 where
  providers list_directory stat copy_file copy_directory make_directory remove_file check :
      StorageOperation
  other_operation : StorageOperation

pub record StorageRequest : Type 0 where
  pub operation : StorageOperation
  pub source : Text
  pub destination : Text
  pub overwrite : Bool
  pub timeout_ms : ℤ

pub record StorageResult : Type 0 where
  pub ok : Bool
  pub cancelled : Bool
  pub exit_code : ℤ
  pub error : Text
  pub data' : Json

pub record BridgeJob : Type 0 where
  pub output : Bytes
  pub failure : Text
  pub cancelled : Bool
  pub completed : Bool
  pub json : Bool

pub record Launch : Type 0 where
  pub program : Text
  pub arguments : List Text
  pub variables : Dict Text Text
  pub timeout : ℤ

-- The effects on the children: a start, or a kill.
pub data Effect : Type 0 where
  launches : Text → Launch → Effect
  kills : Text → Effect

pub record Bridge : Type 0 where
  pub options : BackendOptions
  pub objects : Dict Text BridgeJob
  pub table : List Text  -- the keys of `jobs`
  pub pending : List (Text × StorageResult)  -- results that a single-shot timer will deliver
  pub finished : List (Text × StorageResult)
  pub effects : List Effect

abbrev pub is_providers : StorageOperation → Bool
is_providers providers = true
is_providers _ = false

abbrev pub has_destination : StorageOperation → Bool
has_destination copy_file = true
has_destination copy_directory = true
has_destination check = true
has_destination _ = false

abbrev pub copies : StorageOperation → Bool
copies copy_file = true
copies copy_directory = true
copies _ = false

abbrev pub is_other : StorageOperation → Bool
is_other other_operation = true
is_other _ = false

abbrev pub gives_json : StorageOperation → Bool
gives_json providers = true
gives_json list_directory = true
gives_json stat = true
gives_json _ = false

unfoldable pub command_of : StorageRequest → StorageOperation → List Text
command_of r providers = text "config" ∷ text "providers" ∷ []
command_of r list_directory = text "lsjson" ∷ r.source ∷ []
command_of r stat = text "lsjson" ∷ r.source ∷ text "--stat" ∷ []
command_of r copy_file = text "copyto" ∷ r.source ∷ r.destination ∷ []
command_of r copy_directory = text "copy" ∷ r.source ∷ r.destination ∷ []
command_of r make_directory = text "mkdir" ∷ r.source ∷ []
command_of r remove_file = text "deletefile" ∷ r.source ∷ []
command_of r check = text "check" ∷ r.source ∷ r.destination ∷ text "--download" ∷ []
command_of r other_operation = []

unfoldable pub job_arguments : StorageRequest → List Text
job_arguments r =
    command_of r r.operation
    ++ (if copies r.operation
        then (if r.overwrite then [] else text "--ignore-existing" ∷ [])
          ++ text "--checksum" ∷ text "--local-no-set-modtime" ∷ []
        else [])

abbrev pub blank_result : StorageResult
blank_result = record {
  ok = false;
  cancelled = false;
  exit_code = negsuc 0;
  error = [];
  data' = null;
}

abbrev pub new_job : Bool → BridgeJob
new_job json = record {
  output = [];
  failure = [];
  cancelled = false;
  completed = false;
  json = json;
}

abbrev pub output_limit : ℕ
output_limit = 16777216

module _ (files : Files) where
  unfoldable pub request_error : StorageRequest → Bridge → Text
  request_error r d =
      if is_other r.operation
      then text "unsupported_operation"
      else (validate_backend files d.options true
          otherwise (if is_providers r.operation
              then []
              else validate_location files r.source d.options)
          otherwise (if has_destination r.operation
              then validate_location files r.destination d.options
              else [])
          otherwise fail_if (not (is_positive r.timeout_ms)) "invalid_timeout"
          otherwise fail_if (leb 4 (length d.table)) "too_many_transfers")

  unfoldable pub launch_of : StorageRequest → Bridge → Launch
  launch_of r d = record {
    program = executable_of files d.options;
    arguments = job_arguments r ++ common_arguments files d.options;
    variables = environment files d.options;
    timeout = r.timeout_ms;
  }

  -- StorageBridge::start; `id` is a new UUID.
  unfoldable pub start_job : Text → StorageRequest → Bridge → Bridge
  start_job id r d =
      let error = request_error r d in
      if is_empty error
      then record d {
        objects = Dict.insert id (new_job (gives_json r.operation)) d.objects;
        table = id ∷ d.table;
        effects = d.effects ++ launches id (launch_of r d) ∷ [];
      }
      else record d { pending = d.pending ++ (id, record blank_result { error = error }) ∷ [] }

-- The table without the key.
unfoldable pub drop_key : Text → List Text → List Text
drop_key id [] = []
drop_key id (k ∷ ks) = let rest = drop_key id ks in if eq k id then rest else k ∷ rest

abbrev pub data_of : Option Json → Json
data_of none = null
data_of (some (arr xs)) = arr xs
data_of (some (obj o)) = obj o
data_of (some _) = null

-- The error and the data of a job that has ended. `parse` is `QJsonDocument::fromJson`.
unfoldable pub judge : (Bytes → Option Json) → BridgeJob → ℤ → Bool → Text × Json
judge parse job code normal =
    if job.cancelled
    then (text "cancelled", null)
    else if not (is_empty job.failure)
    then (job.failure, null)
    else if not normal || not (is_zero code)
    then (text "backend_failed", null)
    else if not job.json
    then ([], null)
    else if not (is_some (parse job.output))
    then (text "invalid_backend_response", null)
    else ([], data_of (parse job.output))

unfoldable pub result_of : (Bytes → Option Json) → BridgeJob → ℤ → Bool → StorageResult
result_of parse job code normal =
    let (error, data') = judge parse job code normal in
    record {
      ok = is_empty error;
      cancelled = job.cancelled;
      exit_code = code;
      error = error;
      data' = data';
    }

abbrev pub update : Text → BridgeJob → Bridge → Bridge
update id job d = record d { objects = Dict.insert id job d.objects }

abbrev pub finish_found :
    (Bytes → Option Json) → Text → ℤ → Bool → Option BridgeJob → Bridge → Bridge
finish_found parse id code normal none d = d
finish_found parse id code normal (some job) d = if job.completed then d else record d {
  objects = Dict.insert id (record job { completed = true }) d.objects;
  table = drop_key id d.table;
  finished = d.finished ++ (id, result_of parse job code normal) ∷ [];
}

-- The closure `finish`
unfoldable pub finish : (Bytes → Option Json) → Text → ℤ → Bool → Bridge → Bridge
finish parse id code normal d = finish_found parse id code normal (Dict.find id d.objects) d

abbrev pub kill_with : Text → BridgeJob → Bridge → Bridge
kill_with id job d = record d {
  objects = Dict.insert id job d.objects;
  effects = d.effects ++ kills id ∷ [];
}

abbrev pub read_found : Text → Bytes → Option BridgeJob → Bridge → Bridge
read_found id bytes none d = d
read_found id bytes (some job) d =
    if not job.json
    then d
    else if ltb output_limit (length job.output + length bytes)
    then kill_with id (record job { failure = text "result_size_limit_exceeded" }) d
    else update id (record job { output = job.output ++ bytes }) d

-- readyReadStandardOutput
unfoldable pub read_output : Text → Bytes → Bridge → Bridge
read_output id bytes d = read_found id bytes (Dict.find id d.objects) d

abbrev pub start_failed_found : Text → Option BridgeJob → Bridge → Bridge
start_failed_found id none d = d
start_failed_found id (some job) d =
    update id (record job { failure = text "backend_start_failed" }) d

-- errorOccurred with FailedToStart
unfoldable pub start_failed : (Bytes → Option Json) → Text → Bridge → Bridge
start_failed parse id d =
    finish parse id (negsuc 0) false (start_failed_found id (Dict.find id d.objects) d)

abbrev pub time_out_found : Text → Option BridgeJob → Bridge → Bridge
time_out_found id none d = d
time_out_found id (some job) d = kill_with id (record job { failure = text "timeout" }) d

-- The timer's timeout
unfoldable pub time_out : Text → Bridge → Bridge
time_out id d = time_out_found id (Dict.find id d.objects) d

abbrev pub cancel_found : Text → Option BridgeJob → Bridge → Bridge
cancel_found id none d = d
cancel_found id (some job) d = kill_with id (record job { cancelled = true }) d

-- StorageBridge::cancel
unfoldable pub cancel_job : Text → Bridge → Bridge
cancel_job id d =
    if any (λ k. eq k id) d.table then cancel_found id (Dict.find id d.objects) d else d

abbrev pub delivered : List (Text × StorageResult) → Bridge → Bridge
delivered [] d = d
delivered (p ∷ ps) d = record d { pending = ps; finished = d.finished ++ p ∷ [] }

-- The event loop runs the first timer.
unfoldable pub deliver_result : Bridge → Bridge
deliver_result d = delivered d.pending d

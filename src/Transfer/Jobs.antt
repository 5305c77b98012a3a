-- ===== src/Transfer/Jobs.antt =====
-- `FileTransfer`: the table of running jobs, and the signals that it sends.
use ii_server_host.Prelude.Checks.{◌otherwise◌, fail_if}
use ii_server_host.Prelude.{
  leb, if◌then◌else◌, length, ℕ, Bool, true, false, Option, none, some, List, [], ◌∷◌, ◌++◌,
}
use ii_server_host.Prelude.Text.{Text, text, is_empty}
use ii_server_host.Prelude.Dict.{nat_eq, text_eq, Dict}
use ii_server_host.Transfer.Protocols.{Backend}
use ii_server_host.Transfer.Validate.{TransferRequest, Host, validate}
use ii_server_host.Transfer.Perform.{TransferResult, blank}
use ii_server_host.Prelude.Dict

pub record Manager : Type 0 where
  pub jobs : Dict Text Bool  -- whether each job is cancelled
  pub pending : List (Text × TransferResult)  -- results that a single-shot timer will deliver
  pub finished : List (Text × TransferResult)

unfoldable pub start_error : Backend → Host → TransferRequest → Manager → Text
start_error backend host request d =
    (if backend.ready then validate backend host request else text "backend_unavailable")
    otherwise fail_if (leb 4 (length d.jobs)) "too_many_transfers"

-- FileTransfer::start; `id` is a new UUID.
unfoldable pub start : Backend → Host → Text → TransferRequest → Manager → Manager
start backend host id request d =
    let error = start_error backend host request d in
    if is_empty error then record d { jobs = Dict.insert id false d.jobs } else record d {
      pending = d.pending ++ (id, record (blank request.url.scheme) { error = error }) ∷ [];
    }

abbrev cancel_found : Text → Manager → Option Bool → Manager
cancel_found id d none = d
cancel_found id d (some cancelled) = record d { jobs = Dict.insert id true d.jobs }

-- FileTransfer::cancel
unfoldable pub cancel : Text → Manager → Manager
cancel id d = cancel_found id d (Dict.find id d.jobs)

-- The job's thread has finished.
unfoldable pub complete : Text → TransferResult → Manager → Manager
complete id result d = record d {
  jobs = Dict.remove id d.jobs;
  finished = d.finished ++ (id, result) ∷ [];
}

-- The event loop runs the first timer.
unfoldable pub deliver : Manager → Manager
deliver d = elim d.pending [
  | [] ↦ d
  | p ∷ ps ↦ record d { pending = ps; finished = d.finished ++ p ∷ [] }
]

-- FileTransfer::activeCount
unfoldable pub active_count : Manager → ℕ
active_count d = length d.jobs

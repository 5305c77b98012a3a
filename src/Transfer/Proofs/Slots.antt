-- ===== src/Transfer/Proofs/Slots.antt =====
-- At most four jobs run at once.
use ii_server_host.Prelude.Dict
use ii_server_host.Prelude.{
  ltb, Option-cases, length, ◌≤◌, ◌≡◌, refl, inl, inr, true, false, List, [], ◌∷◌, arith,
}
use ii_server_host.Prelude.Text.{Text, text, is_empty}
use ii_server_host.Prelude.Dict.{nat_eq, text_eq, Dict}
use ii_server_host.Transfer.Protocols.{Backend}
use ii_server_host.Transfer.Validate.{TransferRequest, Host}
use ii_server_host.Transfer.Perform.{TransferResult}
use ii_server_host.Transfer.Jobs.{Manager, start_error, start, cancel, complete, deliver}

start_error_full :
    (backend : Backend) (host : Host) (request : TransferRequest) (d : Manager)
    → is_empty (start_error backend host request d) ≡ true
    → ltb (length d.jobs) 4 ≡ true
unfolding start_error text
start_error_full backend host request d e = ground (arith, e)

-- The steps of a manager.
pub data Step (backend : Backend) (host : Host) : Manager → Manager → Type 0 where
  starts :
      {d : Manager} (id : Text) (request : TransferRequest)
      → Step backend host d (start backend host id request d)
  cancels : {d : Manager} (id : Text) → Step backend host d (cancel id d)
  completes :
      {d : Manager} (id : Text) (result : TransferResult)
      → Step backend host d (complete id result d)
  delivers : {d : Manager} → Step backend host d (deliver d)

start-bounded :
    (backend : Backend) (host : Host) (id : Text) (request : TransferRequest) (d : Manager)
    → length d.jobs ≤ 4
    → length (start backend host id request d).jobs ≤ 4
unfolding start
start-bounded backend host id request d b =
    ground
      (arith, b, start_error_full backend host request d, Dict.length-insert-le id false d.jobs)

cancel-length : (id : Text) (d : Manager) → length (cancel id d).jobs ≤ length d.jobs
unfolding cancel Dict.insert
cancel-length id d = elim (Option-cases (Dict.find id d.jobs)) [
  | inl e ↦ rw e (omega arith)
  | inr (v, e) ↦ rw e (omega (arith, Dict.length-remove_lt id d.jobs v e))
]

delivered-jobs :
    (ps : List (Text × TransferResult)) (d : Manager) → d.pending ≡ ps → (deliver d).jobs ≡ d.jobs
unfolding deliver
delivered-jobs [] d e = rw e refl
delivered-jobs (p ∷ ps) d e = rw e refl

deliver-jobs : (d : Manager) → (deliver d).jobs ≡ d.jobs
deliver-jobs d = delivered-jobs d.pending d refl

-- No step of a transfer manager that has at most four jobs leaves it with more.
pub step-bounded :
    (backend : Backend) (host : Host) {d d' : Manager}
    → Step backend host d d'
    → length d.jobs ≤ 4
    → length d'.jobs ≤ 4
unfolding complete
step-bounded backend host (starts {d} id request) b = start-bounded backend host id request d b
step-bounded backend host (cancels {d} id) b = omega (arith, b, cancel-length id d)
step-bounded backend host (completes {d} id result) b =
    omega (arith, b, Dict.length-remove-le id d.jobs)
step-bounded backend host (delivers {d}) b = rw (deliver-jobs d) b

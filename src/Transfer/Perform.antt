-- ===== src/Transfer/Perform.antt =====
-- `perform`: the preparation of the local file, the settings of the handle, and the verdict. What
-- the files and libcurl do is a `Run`.
use ii_server_host.Prelude.{
  ltb, leb, ◌==◌, if◌then◌else◌, ℕ, ◌+◌, String, ◌≡◌, Bool, true, false, ◌&&◌, ◌||◌, not, Option,
  none, some, List, [], ◌∷◌, ◌++◌,
}
use ii_server_host.Prelude.Text.{Text, Bytes, text, eq, is_empty}
use ii_server_host.Transfer.Validate.{TransferRequest, is_upload, uses_http}
use ii_server_host.Transfer.Callbacks.{Io, Callback, calls}
use ii_server_host.Prelude.Int.{to_nat}

pub data CurlCode : Type 0 where
  curl_ok filesize_exceeded timed_out aborted failed_init other_code : CurlCode

pub record TransferResult : Type 0 where
  pub ok : Bool
  pub cancelled : Bool
  pub error : Text
  pub protocol : Text
  pub bytes : ℕ
  pub sha256 : Bytes
  pub response_code : ℕ
  pub http_version : Text

-- iiFileProvider::SaveFile, with what is set on it
pub record SaveFile : Type 0 where
  pub direct_write_fallback : Bool

-- What is written to until the commit: a file beside the local file, or, as QSaveFile documents, the
-- local file itself only if the fallback is set.
pub data Opening (file : SaveFile) : Type 0 where
  unopened beside : Opening file
  in_place : file.direct_write_fallback ≡ true → Opening file

pub record Run : Type 0 where
  pub is_file : Bool
  pub opens : Bool  -- the local file, for reading
  pub opening : (file : SaveFile) → Opening file  -- SaveFile::open
  pub input_size : ℕ
  pub input_chunks : List (Option Bytes)  -- what the reads before the transfer give
  pub cancelled_early : Bool
  pub rewinds : Bool
  pub backend_ready : Bool  -- curl_easy_init and curl_multi_init
  pub options_set : Bool  -- every curl_easy_setopt succeeded
  pub callbacks : List Callback
  pub code : CurlCode
  pub response : ℕ
  pub negotiated : Text
  pub commits : Bool

-- The output of `perform`, after setDirectWriteFallback(false)
abbrev pub output : SaveFile
output = record { direct_write_fallback = false }

abbrev pub is_unopened : {file : SaveFile} → Opening file → Bool
is_unopened unopened = true
is_unopened beside = false
is_unopened (in_place e) = false

abbrev pub is_in_place : {file : SaveFile} → Opening file → Bool
is_in_place unopened = false
is_in_place beside = false
is_in_place (in_place e) = true

unfoldable pub lower : Bytes → Bytes
lower [] = []
lower (u ∷ us) = (if leb b'A' u && leb u b'Z' then u + 32 else u) ∷ lower us

-- The hash over the file before it is sent: `none` is a failed read.
unfoldable pub read_all : List (Option Bytes) → Option Bytes
read_all [] = some []
read_all (none ∷ cs) = none
read_all (some block ∷ cs) = elim (read_all cs) [ none ↦ none | some rest ↦ some (block ++ rest) ]

abbrev pub blank : Text → TransferResult
blank protocol = record {
  ok = false;
  cancelled = false;
  error = [];
  protocol = protocol;
  bytes = 0;
  sha256 = [];
  response_code = 0;
  http_version = [];
}

unfoldable pub failed : Text → String → TransferResult
failed protocol code = record (blank protocol) { error = text code }

abbrev pub start_io : TransferRequest → Io
start_io r = record {
  cancelled = false;
  contents = [];
  bytes = 0;
  maximum = to_nat r.maximum_bytes;
  error = [];
  uploading = is_upload r.operation;
}

-- The code that is judged: a failed setup, an abort, or what the handle reports.
unfoldable pub final_code : Run → Io → CurlCode
final_code run io =
    if not run.options_set then other_code else if io.cancelled then aborted else run.code

abbrev pub is_code_ok : CurlCode → Bool
is_code_ok curl_ok = true
is_code_ok _ = false

abbrev pub is_filesize : CurlCode → Bool
is_filesize filesize_exceeded = true
is_filesize _ = false

abbrev pub is_timeout : CurlCode → Bool
is_timeout timed_out = true
is_timeout _ = false

module _ (hash : Bytes → Bytes) where
  -- `hash` is the hexadecimal SHA-256.
  unfoldable pub checked_upload : TransferRequest → Run → Option Bytes → Option TransferResult
  checked_upload r run none = some (failed r.url.scheme "local_read_failed")
  checked_upload r run (some contents) =
      if run.cancelled_early
      then some (record (failed r.url.scheme "cancelled") { cancelled = true })
      else if not (eq (hash contents) (lower r.expected_sha256))
      then some (failed r.url.scheme "checksum_mismatch")
      else if not run.rewinds
      then some (failed r.url.scheme "local_read_failed")
      else none

  -- The early returns before libcurl is touched.
  unfoldable pub prepare : TransferRequest → Run → Option TransferResult
  prepare r run =
      if is_upload r.operation
      then (if not run.is_file || not run.opens
          then some (failed r.url.scheme "local_read_failed")
          else if not (to_nat r.maximum_bytes == 0) && ltb (to_nat r.maximum_bytes) run.input_size
          then some (failed r.url.scheme "size_limit_exceeded")
          else if not (is_empty r.expected_sha256)
          then checked_upload r run (read_all run.input_chunks)
          else none)
      else if is_unopened (run.opening output)
      then some (failed r.url.scheme "local_write_failed")
      else none

  -- The chain of the last lines: the error, empty for a success, and whether `output.commit()` was
  -- called and replaced the file.
  unfoldable pub verdict : TransferRequest → Run → Io → Text × Bool
  verdict r run io =
      let code = final_code run io in
      if io.cancelled
      then (text "cancelled", false)
      else if not (is_empty io.error)
      then (io.error, false)
      else if is_filesize code
      then (text "size_limit_exceeded", false)
      else if is_timeout code
      then (text "timeout", false)
      else if not (is_code_ok code)
      then (text "transfer_failed", false)
      else if uses_http r.url.scheme && leb 300 run.response && ltb run.response 400
      then (text "redirect_requires_new_request", false)
      else if not (is_empty r.expected_sha256)
          && not (eq (hash io.contents) (lower r.expected_sha256))
      then (text "checksum_mismatch", false)
      else if io.uploading
      then ([], false)
      else if run.commits
      then ([], true)
      else (text "local_commit_failed", false)

  unfoldable pub conclude : TransferRequest → Run → Io → TransferResult × Bool
  conclude r run io =
      let (error, replaced) = verdict r run io in
      (
        record {
          ok = is_empty error;
          cancelled = io.cancelled;
          error = error;
          protocol = r.url.scheme;
          bytes = io.bytes;
          sha256 = hash io.contents;
          response_code = run.response;
          http_version = run.negotiated;
        },
        replaced,
      )

  -- The callbacks have happened when the verdict is made.
  unfoldable pub transfer : TransferRequest → Run → TransferResult × Bool
  transfer r run =
      if not run.backend_ready
      then (failed r.url.scheme "backend_initialization_failed", false)
      else conclude r run (calls run.callbacks (start_io r))

  -- Does opening the output for a download already write to the local file?
  abbrev pub writes_through : TransferRequest → Run → Bool
  writes_through r run = not (is_upload r.operation) && is_in_place (run.opening output)

  abbrev pub performed : TransferRequest → Run → Option TransferResult → TransferResult × Bool
  performed r run none =
      let (result, committed) = transfer r run in (result, writes_through r run || committed)
  performed r run (some result) = (result, writes_through r run)

  -- perform, with whether it changed or replaced the local file
  unfoldable pub perform : TransferRequest → Run → TransferResult × Bool
  perform r run = performed r run (prepare r run)

-- ===== src/Transfer/Callbacks.antt =====
-- The callbacks that libcurl makes: `writeData`, `readData`, `seekData` and `progressData`. What the
-- file answers is an argument; `contents` is what has been handed to the hash.
use ii_server_host.Prelude.{
  ltb, ◌==◌, if◌then◌else◌, length, ℕ, ◌+◌, ◌*◌, ◌/◌, Bool, true, false, ◌&&◌, ◌||◌, not, Option,
  none, some, List, [], ◌∷◌, ◌++◌,
}
use ii_server_host.Prelude.Text.{Text, Bytes, text}

pub record Io : Type 0 where
  pub cancelled : Bool
  pub contents : Bytes
  pub bytes : ℕ
  pub maximum : ℕ
  pub error : Text
  pub uploading : Bool

abbrev pub qint64_max : ℕ
qint64_max = 9223372036854775807

-- size && count > qint64_max / size
unfoldable pub overflows : ℕ → ℕ → Bool
overflows size count = not (size == 0) && ltb (qint64_max / size) count

-- n > qint64_max - bytes || (maximum && n > maximum - bytes); the differences of the source are
-- signed, so the sums here say the same.
unfoldable pub over_limit : Io → ℕ → Bool
over_limit io n =
    ltb qint64_max (io.bytes + n) || (not (io.maximum == 0) && ltb io.maximum (io.bytes + n))

unfoldable pub absorb : Io → Bytes → Io
absorb io data' = record io { contents = io.contents ++ data'; bytes = io.bytes + length data' }

-- `writeData` on a block of `size * count` bytes. `stored` says that the file took all of it.
unfoldable pub write_data : Bytes → ℕ → ℕ → Bool → Io → ℕ × Io
write_data block size count stored io =
    let n = size * count in
    if overflows size count
    then (0, io)
    else if io.uploading
    then (n, io)
    else if io.cancelled
    then (0, io)
    else if over_limit io n
    then (0, record io { error = text "size_limit_exceeded" })
    else if not stored
    then (0, record io { error = text "local_write_failed" })
    else (n, absorb io block)

-- What a read callback returns: the abort code, or a number of bytes.
pub data ReadResult : Type 0 where
  aborts : ReadResult
  delivers : ℕ → ReadResult

abbrev read_found : Option Bytes → Io → ReadResult × Io
read_found none io = (aborts, record io { error = text "local_read_failed" })
read_found (some block) io = (delivers (length block), absorb io block)

-- `readData`; `none` is a read that failed.
unfoldable pub read_data : ℕ → ℕ → Option Bytes → Io → ReadResult × Io
read_data size count answer io =
    if io.cancelled || overflows size count then (aborts, io) else read_found answer io

-- `seekData`: only a rewind, which forgets what was hashed. `sought` says that the file could.
unfoldable pub seek_data : Bool → Bool → Io → Bool × Io
seek_data to_start sought io =
    if not to_start || not sought
    then (false, io)
    else (true, record io { contents = []; bytes = 0 })

-- `progressData`: true stops the transfer.
unfoldable pub progress_data : ℕ → ℕ → Io → Bool × Io
progress_data download_total upload_total io =
    let total = if io.uploading then upload_total else download_total in
    if io.cancelled
    then (true, io)
    else if not (io.maximum == 0) && ltb io.maximum total
    then (true, record io { error = text "size_limit_exceeded" })
    else (false, io)

-- One callback with the file's answer, or the owner's cancellation.
pub data Callback : Type 0 where
  writes : Bytes → ℕ → ℕ → Bool → Callback
  reads : ℕ → ℕ → Option Bytes → Callback
  seeks : Bool → Bool → Callback
  reports : ℕ → ℕ → Callback
  cancels : Callback

unfoldable pub call : Callback → Io → Io
call (writes block size count stored) io = (write_data block size count stored io).1
call (reads size count answer) io = (read_data size count answer io).1
call (seeks to_start sought) io = (seek_data to_start sought io).1
call (reports download_total upload_total) io = (progress_data download_total upload_total io).1
call cancels io = record io { cancelled = true }

unfoldable pub calls : List Callback → Io → Io
calls [] io = io
calls (c ∷ cs) io = calls cs (call c io)

-- ===== src/Transfer/Proofs/Bounded.antt =====
-- What the callbacks have handed to the hash is what the count says, and stays within the limit.
use ii_server_host.Prelude.{
  length, length-append, ◌+◌, ◌*◌, ◌≤◌, ◌≡◌, ◌≢◌, true, false, none, some, List, [], ◌∷◌, arith,
}
use ii_server_host.Transfer.Callbacks.{
  Io, qint64_max, over_limit, absorb, write_data, read_data, seek_data, progress_data, Callback,
  writes, reads, seeks, reports, cancels, call, calls,
}

pub record IsCounted (io : Io) : Type 0 where
  pub counted : io.bytes ≡ length io.contents
  pub fits : io.bytes ≤ qint64_max
  pub limited : io.uploading ≡ false → io.maximum ≢ 0 → io.bytes ≤ io.maximum

-- The environment of a callback: a block has the size that libcurl states, and a file hands out no
-- more than a machine can count.
abbrev pub IsSane : Io → Callback → Type 0
IsSane io (writes block size count stored) = length block ≡ size * count
IsSane io (reads size count none) = Unit
IsSane io (reads size count (some block)) =
    (io.uploading ≡ true) × (io.bytes + length block ≤ qint64_max)
IsSane io (seeks to_start sought) = Unit
IsSane io (reports download_total upload_total) = Unit
IsSane io cancels = Unit

call-IsCounted : (c : Callback) (io : Io) → IsSane io c → IsCounted io → IsCounted (call c io)
unfolding call write_data read_data seek_data progress_data absorb over_limit
call-IsCounted (writes block size count stored) io s v =
    ground (arith, s, v, length-append io.contents block)
call-IsCounted (reads size count none) io s v = ground (arith, s, v)
call-IsCounted (reads size count (some block)) io s v =
    ground (arith, s, v, length-append io.contents block)
call-IsCounted (seeks to_start sought) io s v = ground (arith, v)
call-IsCounted (reports download_total upload_total) io s v = ground (arith, v)
call-IsCounted cancels io s v = ground (arith, v)

-- Every callback of a run is sane where it happens.
abbrev pub AreSane : List Callback → Io → Type 0
AreSane [] io = Unit
AreSane (c ∷ cs) io = IsSane io c × AreSane cs (call c io)

-- Over every sequence of callbacks, the count of a transfer stays the length of what was hashed,
-- fits a qint64, and for a download stays within the limit of the request, if each block has the
-- size that is stated and an upload fits a qint64.
pub calls-IsCounted :
    (cs : List Callback) (io : Io) → AreSane cs io → IsCounted io → IsCounted (calls cs io)
unfolding calls
calls-IsCounted [] io s v = v
calls-IsCounted (c ∷ cs) io s v = calls-IsCounted cs (call c io) s.1 (call-IsCounted c io s.0 v)

-- ===== src/Share/Handle.antt =====
-- `FileShare::handle`: the operations on one file, and the choice among all of them.
use ii_server_host.Prelude.{
  ltb, leb, ◌==◌, if◌then◌else◌, length, take, ℕ, ◌+◌, ◌-◌, ◌*◌, ◌/◌, min, String, Bool, true, ◌&&◌,
  ◌||◌, not, Option, none, some, List, [], ◌∷◌, ◌++◌,
}
use ii_server_host.Prelude.Text.{Text, Bytes, text, eq, is_empty, to_latin1}
use ii_server_host.Prelude.Patterns.{split_at, decimal}
use ii_server_host.Json.{Json, bool, str, Object, is_string, to_str, value, has, size, object}
use ii_server_host.Protocol.{error}
use ii_server_host.Prelude.Int.{ℤ, pos, negsuc}
use ii_server_host.Share.{chunk_bytes, Status, Disk, resolve, number_of, list_entries}

-- The answer to a request, and the contents that a name was newly linked to.
pub record Reply : Type 0 where
  pub answer : Object
  pub published : Option Bytes

abbrev pub reply : Object → Reply
reply o = record { answer = o; published = none }

abbrev pub fails : String → Reply
fails code = reply (error (text code))

-- The lesser of the chunk and what is left.
abbrev pub chunk_size : ℕ → ℕ → ℕ
chunk_size offset size = min chunk_bytes (size - offset)

unfoldable pub chunk : Disk → Status → ℕ → Bytes → Object
chunk disk s offset bytes = object (
    (text "ok", bool true)
    ∷ (text "data", str (disk.to_base64 bytes))
    ∷ (text "offset", str (decimal offset))
    ∷ (text "size", str (decimal s.size))
    ∷ (text "version", str s.version)
    ∷ (text "eof", bool (offset + length bytes == s.size))
    ∷ [])

abbrev pub read_found : Disk → Status → ℕ → Option Bytes → Option Status → Object
read_found disk s offset none after = error (text "read_failed")
read_found disk s offset (some bytes) none = error (text "read_failed")
read_found disk s offset (some bytes) (some after) =
    if not (eq after.version s.version)
    then error (text "file_changed")
    else chunk disk s offset bytes

abbrev pub read_at : Disk → Text → Status → Option ℤ → Object
read_at disk path s none = error (text "invalid_offset")
read_at disk path s (some (negsuc n)) = error (text "invalid_offset")
read_at disk path s (some (pos offset)) =
    if ltb s.size offset
    then error (text "invalid_offset")
    else read_found disk s offset (disk.pread path offset (chunk_size offset s.size))
        (disk.status_after path)

abbrev pub open_found : Disk → Text → Bool → Object → Option Status → Object
open_found disk path only_status request none = error (text "not_file")
open_found disk path only_status request (some s) =
    if not s.regular
    then error (text "not_file")
    else if has (text "version") request
        && not (eq (to_str (value (text "version") request)) s.version)
    then error (text "file_changed")
    else if only_status
    then object (
        (text "ok", bool true)
        ∷ (text "size", str (decimal s.size))
        ∷ (text "version", str s.version)
        ∷ [])
    else read_at disk path s (number_of disk request (text "offset"))

-- The operations "read" and "stat"
unfoldable pub read_file : Disk → Text → Bool → Object → Object
read_file disk path only_status request =
    open_found disk path only_status request (disk.status path)

-- The last part of a path, and what stands before its separator.
unfoldable pub last_part : List Text → Text
last_part [] = []
last_part (p ∷ []) = p
last_part (p ∷ q ∷ ps) = last_part (q ∷ ps)

unfoldable pub parent_of : List Text → Text
parent_of [] = []
parent_of (p ∷ []) = []
parent_of (p ∷ q ∷ []) = p
parent_of (p ∷ q ∷ r ∷ ps) = p ++ b'/' ∷ parent_of (q ∷ r ∷ ps)

-- The loop of `write` calls: how much has been written in the end.
unfoldable pub write_loop : ℕ → ℕ → List ℕ → ℕ
write_loop total written [] = written
write_loop total written (count ∷ counts) =
    let rest = write_loop total (written + count) counts in
    if leb total written || count == 0 then written else rest

unfoldable pub store : Disk → Text → Text → Bytes → Reply
store disk parent name bytes =
    let written = write_loop (length bytes) 0 (disk.write_some bytes) in
    if not (disk.create_temporary parent)
    then fails "write_failed"
    else if written == length bytes && disk.sync_and_link parent name
    then record {
      answer = object ((text "ok", bool true) ∷ (text "size", str (decimal written)) ∷ []);
      published = some (take written bytes);
    }
    else fails "write_failed_or_exists"

abbrev pub decoded_found : Disk → Text → Text → Json → Option Bytes → Reply
decoded_found disk parent name data' none = fails "invalid_data"
decoded_found disk parent name data' (some bytes) =
    if not (is_string data') || ltb chunk_bytes (length bytes)
    then fails "invalid_data"
    else store disk parent name bytes

-- The operations "write" and "mkdir"
unfoldable pub write_file : Disk → Text → Bool → Object → Reply
write_file disk path only_directory request =
    let parent = parent_of (split_at b'/' path) in
    let name = last_part (split_at b'/' path) in
    let encoded = to_latin1 (to_str (value (text "data") request)) in
    if is_empty path
    then fails "invalid_path"
    else if not (disk.opens_directory parent)
    then fails "not_directory"
    else if only_directory
    then (if disk.make_directory parent name
        then reply (object ((text "ok", bool true) ∷ []))
        else fails "create_failed_or_exists")
    else if ltb ((chunk_bytes + 2) / 3 * 4) (length encoded)
    then fails "write_too_large"
    else decoded_found disk parent name (value (text "data") request) (disk.from_base64 encoded)

-- FileShare::handle
unfoldable pub handle : Disk → Text → Object → Reply
handle disk root request =
    let op = to_str (value (text "op") request) in
    let path = to_str (value (text "path") request) in
    let creates = eq op (text "write") || eq op (text "mkdir") in
    if has (text "path") request && not (is_string (value (text "path") request))
    then fails "invalid_path"
    else if is_empty (resolve disk root path creates)
    then fails "invalid_or_unavailable_path"
    else if eq op (text "list")
    then reply (list_entries disk path request)
    else if eq op (text "read") || eq op (text "stat")
    then reply (read_file disk path (eq op (text "stat")) request)
    else if creates
    then write_file disk path (eq op (text "mkdir")) request
    else fails "unsupported_operation"

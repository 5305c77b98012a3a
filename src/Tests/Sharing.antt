-- ===== src/Tests/Sharing.antt =====
-- A directory of two entries, and a write.
use ii_server_host.Prelude.Patterns.{split_at, digits}
use ii_server_host.Protocol.{error}
use ii_server_host.Share.Handle.{
  chunk, read_file, last_part, parent_of, write_loop, store, write_file, handle,
}
use ii_server_host.Prelude.{
  ltb, length, take, drop, ◌≡◌, refl, Bool, true, false, none, some, List, [], ◌∷◌, ◌++◌,
}
use ii_server_host.Prelude.Text.{
  Text, text, eq, is_empty, lt, starts_with, contains_unit, to_latin1, is_high, is_low, pairs_up,
  is_valid_utf16,
}
use ii_server_host.Json.{
  str, Object, is_undefined, is_string, to_str, value, has, remove, place, insert, object,
}
use ii_server_host.Share.{
  Entry, Disk, good_part, relative, descend, resolve, page, entry_items, listing, number_of,
  list_entries,
}
use ii_server_host.Share.Paging.{visible, page_slice}
use ii_server_host.Share.Writing.{handle_publishes_whole}

abbrev plain_disk : Disk
plain_disk = record {
  is_absolute = λ t. starts_with t (b'/' ∷ []);
  is_control_file = λ t. false;
  is_sym_link = λ t. false;
  exists = λ t. true;
  canonical = λ t. t;
  file_path = λ d n. d ++ b'/' ∷ n;
  to_long_long = λ t. none;
  from_base64 = λ b. some b;
  to_base64 = λ b. b;
  guard = true;
  entries = λ t. none;
  status = λ t. none;
  status_after = λ t. none;
  pread = λ t o n. none;
  opens_directory = λ t. true;
  make_directory = λ d n. true;
  create_temporary = λ d. true;
  write_some = λ b. length b ∷ [];
  sync_and_link = λ d n. true;
}

abbrev entry : Text → Bool → Entry
entry name listable = record {
  name = name;
  listable = listable;
  directory = false;
  size = 1;
  version = b'v' ∷ [];
}

abbrev two_entries : List Entry
two_entries = entry (b'a' ∷ []) true ∷ entry (b'.' ∷ b'.' ∷ []) true ∷ entry (b'b' ∷ []) true ∷ []

abbrev write_request : Object
write_request = object (
    (text "op", str (text "write"))
    ∷ (text "path", str (b'f' ∷ []))
    ∷ (text "data", str (b'x' ∷ b'y' ∷ []))
    ∷ [])

page_slice_example : page plain_disk 1 0 0 two_entries ≡ (
  take 256 (drop 1 (visible plain_disk two_entries)),
  ltb 256 (length (drop 1 (visible plain_disk two_entries))),
)
page_slice_example = page_slice plain_disk 1 two_entries

handle_publishes_whole_example :
    (plain_disk.from_base64 (to_latin1 (to_str (value (text "data") write_request)))
      ≡ some (b'x' ∷ b'y' ∷ []))
    × ((eq (to_str (value (text "op") write_request)) (text "mkdir") ≡ false)
        × (is_empty
              (resolve plain_disk (text "/srv") (to_str (value (text "path") write_request)) true)
            ≡ false))
unfolding chunk contains_unit descend digits entry_items eq error good_part handle has insert
    is_high is_low is_string is_undefined is_valid_utf16 last_part list_entries listing lt number_of
    object page pairs_up parent_of place read_file relative remove resolve split_at starts_with
    store text to_latin1 to_str value write_file write_loop
handle_publishes_whole_example =
    handle_publishes_whole plain_disk (text "/srv") write_request (b'x' ∷ b'y' ∷ []) refl

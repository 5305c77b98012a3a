-- ===== src/Share.antt =====
-- src/FileShare.cpp on Unix: which paths a share accepts, and what it answers. What the files and
-- the system calls answer is a `Disk`.
pub mod Handle
pub mod Paging
pub mod Writing
use ii_server_host.Prelude.{
  ltb, ◌==◌, if◌then◌else◌, length, all, ℕ, ◌+◌, Bool, true, false, ◌&&◌, ◌||◌, not, Option, none,
  some, List, [], ◌∷◌,
}
use ii_server_host.Prelude.Text.{Text, Bytes, text, eq, is_empty, starts_with, is_valid_utf16}
use ii_server_host.Prelude.Patterns.{split_at, has_unit, decimal}
use ii_server_host.Json.{bool, str, arr, obj, Items, nil, cons, Object, to_str, value, has, object}
use ii_server_host.Protocol.{error}
use ii_server_host.Prelude.Int.{ℤ, pos, negsuc}

abbrev pub chunk_bytes : ℕ
chunk_bytes = 262144

abbrev pub page_size : ℕ
page_size = 256

abbrev pub cursor_limit : ℕ
cursor_limit = 1000000

-- One entry of a directory: its name, whether `fstatat` finds a regular file or a directory, and
-- what it says of it.
pub record Entry : Type 0 where
  pub name : Text
  pub listable : Bool
  pub directory : Bool
  pub size : ℕ
  pub version : Text

-- What `fstat` says of an open file.
pub record Status : Type 0 where
  pub regular : Bool
  pub size : ℕ
  pub version : Text

pub record Disk : Type 0 where
  pub is_absolute : Text → Bool
  pub is_control_file : Text → Bool
  pub is_sym_link : Text → Bool
  pub exists : Text → Bool
  pub canonical : Text → Text
  pub file_path : Text → Text → Text  -- QDir(dir).filePath(name)
  pub to_long_long : Text → Option ℤ
  pub from_base64 : Bytes → Option Bytes
  pub to_base64 : Bytes → Text
  pub guard : Bool  -- no guard, or it agrees
  pub entries : Text → Option (List Entry)  -- the directory that `confined` opens, as it is read
  pub status : Text → Option Status  -- the file that `confined` opens, or none
  pub status_after : Text → Option Status  -- the same after the read
  pub pread : Text → ℕ → ℕ → Option Bytes
  pub opens_directory : Text → Bool
  pub make_directory : Text → Text → Bool
  pub create_temporary : Text → Bool
  pub write_some : Bytes → List ℕ  -- how much each `write` takes until one takes nothing
  pub sync_and_link : Text → Text → Bool

unfoldable pub good_part : Disk → Text → Bool
good_part disk part =
    not (is_empty part)
    && not (eq part (text "."))
    && not (eq part (text ".."))
    && not (starts_with part (text ".iiwebserver-"))
    && not (disk.is_control_file part)

unfoldable pub relative : Disk → Text → Bool
relative disk path =
    if ltb 4096 (length path)
      || not (is_valid_utf16 path)
      || disk.is_absolute path
      || has_unit b'\\' path
      || has_unit b':' path
      || has_unit 0 path
    then false
    else is_empty path || all (good_part disk) (split_at b'/' path)

abbrev pub parts_of : Text → List Text
parts_of path = if is_empty path then [] else split_at b'/' path

-- The walk of `resolve`, from the directory reached.
unfoldable pub descend : Disk → Bool → Text → List Text → Text
descend disk allow_missing current [] = current
descend disk allow_missing current (p ∷ ps) =
    let next = disk.file_path current p in
    let rest = descend disk allow_missing next ps in
    if disk.is_sym_link next
      || (disk.exists next && not (eq (disk.canonical next) next))
      || (not (disk.exists next) && not (allow_missing && is_empty ps))
    then []
    else rest

unfoldable pub resolve : Disk → Text → Text → Bool → Text
resolve disk root path allow_missing =
    if is_empty root
      || not (relative disk path)
      || not disk.guard
      || not (eq (disk.canonical root) root)
    then []
    else descend disk allow_missing root (parts_of path)

-- The loop over the directory: the entries of the page, and whether there are more.
unfoldable pub page : Disk → ℕ → ℕ → ℕ → List Entry → List Entry × Bool
page disk offset index count [] = ([], false)
page disk offset index count (e ∷ es) =
    let skipped = not (relative disk e.name) || not e.listable in
    let early = skipped || ltb index offset in
    let (shown, more) =
      page disk offset (if skipped then index else index + 1) (if early then count else count + 1)
        es in
    if early then (shown, more) else if count == page_size then ([], true) else (e ∷ shown, more)

unfoldable pub entry_items : List Entry → Items
entry_items [] = nil
entry_items (e ∷ es) =
    cons
      (obj (
        object (
          (text "name", str e.name)
          ∷ (text "directory", bool e.directory)
          ∷ (text "size", str (decimal e.size))
          ∷ (text "version", str e.version)
          ∷ [])))
      (entry_items es)

unfoldable pub listing : ℕ → List Entry × Bool → Object
listing offset (shown, more) = object (
    (text "ok", bool true)
    ∷ (text "entries", arr (entry_items shown))
    ∷ (text "nextCursor", str (if more then decimal (offset + length shown) else []))
    ∷ [])

-- The number of a member that may be missing; `none` is a text that is no number.
unfoldable pub number_of : Disk → Object → Text → Option ℤ
number_of disk request key =
    if has key request then disk.to_long_long (to_str (value key request)) else some (pos 0)

abbrev list_found : Disk → ℕ → Option (List Entry) → Object
list_found disk offset none = error (text "not_directory")
list_found disk offset (some es) = listing offset (page disk offset 0 0 es)

abbrev list_at : Disk → Text → Option ℤ → Object
list_at disk path none = error (text "invalid_cursor")
list_at disk path (some (negsuc n)) = error (text "invalid_cursor")
list_at disk path (some (pos offset)) =
    if ltb cursor_limit offset
    then error (text "invalid_cursor")
    else list_found disk offset (disk.entries path)

-- The operation "list"
unfoldable pub list_entries : Disk → Text → Object → Object
list_entries disk path request = list_at disk path (number_of disk request (text "cursor"))

-- ===== src/Storage/Backend.antt =====
-- `validateBackend`, `validateLocation`, `environment` and `commonArguments`. What the file system
-- and Qt answer is a `Files`.
use ii_server_host.Prelude.Patterns.{matches_line, word_unit, has_unit}
use ii_server_host.Prelude.Checks.{◌otherwise◌, fail_if}
use ii_server_host.Prelude.Dict
use ii_server_host.Prelude.{
  ltb, leb, ◌==◌, if◌then◌else◌, length, ℕ, Bool, true, false, ◌&&◌, ◌||◌, not, Option, none, some,
  List, [], ◌∷◌, ◌++◌,
}
use ii_server_host.Prelude.Text.{Text, Bytes, text, eq, is_empty, starts_with, is_valid_utf16}
use ii_server_host.Prelude.Dict.{nat_eq, text_eq, Dict}

pub record Files : Type 0 where
  pub is_absolute : Text → Bool
  pub is_sym_link : Text → Bool
  pub canonical : Text → Text
  pub clean : Text → Text
  pub absolute : Text → Text
  pub is_dir : Text → Bool
  pub is_file : Text → Bool
  pub is_readable : Text → Bool
  pub is_executable : Text → Bool
  pub open_to_others : Text → Bool  -- some permission of the group or of others
  pub find_executable : Text → Text
  pub null_device : Text
  pub from_utf8 : Bytes → Text
  pub system : Dict Text Text  -- the environment of this process

pub record BackendOptions : Type 0 where
  pub executable : Text
  pub config_file : Text
  pub config_password : Bytes
  pub runtime_directory : Text
  pub ftp_python_executable : Text
  pub ftp_server_script : Text

abbrev pub size_limit : ℕ
size_limit = 8192

-- [A-Za-z0-9_][A-Za-z0-9_-]*: then units that are no controls. The flags say that the name has
-- begun and that it has ended.
unfoldable pub remote_pattern : Bool → Bool → Text → Bool
unfolding word_unit
remote_pattern begun ended [] = ended
remote_pattern begun true (u ∷ us) = leb 32 u && remote_pattern true true us
remote_pattern false false (u ∷ us) = word_unit u && not (u == b'-') && remote_pattern true false us
remote_pattern true false (u ∷ us) =
    (u == b':' || word_unit u) && remote_pattern true (u == b':') us

abbrev pub inherited_keys : List Text
inherited_keys = text "PATH" ∷ text "SystemRoot" ∷ text "WINDIR" ∷ text "LANG" ∷ text "LC_ALL" ∷ []

unfoldable pub put_all : List (Text × Text) → Dict Text Text → Dict Text Text
put_all [] env = env
put_all ((key, value) ∷ rest) env = put_all rest (Dict.insert key value env)

module _ (files : Files) where
  unfoldable pub private_path : Text → Bool → Bool
  private_path path directory =
      if not (files.is_absolute path)
        || files.is_sym_link path
        || not (eq (files.canonical path) (files.clean path))
        || (if directory then not (files.is_dir path) else not (files.is_file path))
      then false
      else if files.open_to_others path
      then false
      else files.is_readable path

  unfoldable pub executable_of : BackendOptions → Text
  executable_of o =
      if is_empty o.executable
      then files.find_executable (text "rclone")
      else if files.is_absolute o.executable
          && files.is_file o.executable
          && files.is_executable o.executable
      then files.absolute o.executable
      else []

  unfoldable pub validate_backend : BackendOptions → Bool → Text
  validate_backend o require_rclone =
      fail_if (require_rclone && is_empty (executable_of o)) "backend_unavailable"
      otherwise fail_if (not (private_path o.runtime_directory true))
          "private_runtime_directory_required"
      otherwise fail_if (not (is_empty o.config_file) && not (private_path o.config_file false))
          "private_config_required"
      otherwise fail_if (has_unit 0 o.config_password) "invalid_config_password"

  unfoldable pub remote_location : Text → Bool
  remote_location path = starts_with path (b':' ∷ []) || not (files.is_absolute path)

  unfoldable pub names_remote : Text → Bool
  names_remote path = is_valid_utf16 path && matches_line (remote_pattern false false) path

  unfoldable pub validate_location : Text → BackendOptions → Text
  validate_location path o =
      if is_empty path
        || ltb size_limit (length path)
        || has_unit 0 path
        || has_unit 10 path
        || has_unit 13 path
      then text "invalid_location"
      else if not (remote_location path)
      then []
      else if not (names_remote path)
      then text "invalid_location"
      else fail_if (is_empty o.config_file) "explicit_config_required"

  abbrev pub inherit_found : Text → Option Text → Dict Text Text → Dict Text Text
  inherit_found key none env = env
  inherit_found key (some value) env = Dict.insert key value env

  -- One variable of the system's environment, if it is there.
  unfoldable pub inherit : List Text → Dict Text Text → Dict Text Text
  inherit [] env = env
  inherit (key ∷ rest) env = inherit rest (inherit_found key (Dict.find key files.system) env)

  -- The variables that are set whatever the system's environment is.
  unfoldable pub own_variables : BackendOptions → List (Text × Text)
  own_variables o =
      (text "TMPDIR", o.runtime_directory)
      ∷ (text "TMP", o.runtime_directory)
      ∷ (text "TEMP", o.runtime_directory)
      ∷ (text "USERPROFILE", o.runtime_directory)
      ∷ (text "HOME", o.runtime_directory)
      ∷ (text "PYTHONNOUSERSITE", text "1")
      ∷ (if is_empty o.config_password
          then []
          else (text "RCLONE_CONFIG_PASS", files.from_utf8 o.config_password) ∷ [])

  unfoldable pub environment : BackendOptions → Dict Text Text
  environment o = put_all (own_variables o) (inherit inherited_keys [])

  unfoldable pub common_arguments : BackendOptions → List Text
  common_arguments o =
      text "--config"
      ∷ (if is_empty o.config_file then files.null_device else o.config_file)
      ∷ text "--cache-dir"
      ∷ o.runtime_directory
      ∷ text "--use-json-log"
      ∷ text "--log-level"
      ∷ text "ERROR"
      ∷ text "--stats"
      ∷ text "0"
      ∷ text "--ask-password=false"
      ∷ text "--retries"
      ∷ text "1"
      ∷ text "--low-level-retries"
      ∷ text "1"
      ∷ []

  unfoldable pub inside : Text → Text → Bool
  inside path root =
      eq (files.clean path) root || starts_with (files.clean path) (root ++ b'/' ∷ [])

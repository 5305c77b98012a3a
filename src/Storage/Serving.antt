-- ===== src/Storage/Serving.antt =====
-- `FileProtocolServer`: the one child of a file server, what it is started with, and how it ends.
use ii_server_host.Prelude.Patterns.{decimal}
use ii_server_host.Prelude.{
  ◌==◌, if◌then◌else◌, Bool, true, false, ◌&&◌, not, Option, List, [], ◌∷◌, ◌++◌,
}
use ii_server_host.Prelude.Text.{Text, text, is_empty}
use ii_server_host.Prelude.Dict.{Dict}
use ii_server_host.Protocol.{Address}
use ii_server_host.Storage.Backend.{
  Files, BackendOptions, put_all, executable_of, environment, common_arguments,
}
use ii_server_host.Storage.Server.{
  FileServerOptions, ServerSpec, server_spec, runs, python_ftp, has_name, validate_server,
}

pub data ServerSignal : Type 0 where
  started stopped : ServerSignal
  failed : Text → ServerSignal

-- What is asked of the process object.
pub data ServerEffect : Type 0 where
  launches : Text → List Text → Dict Text Text → ServerEffect
  terminates : ServerEffect

pub record FileServer : Type 0 where
  pub backend : BackendOptions
  pub process : Bool  -- there is a process object
  pub error : Text
  pub stopping : Bool
  pub signals : List ServerSignal
  pub effects : List ServerEffect

abbrev pub when : Bool → List Text → List Text
when b args = if b then args else []

abbrev pub shown_address : Address → Text
shown_address a = if a.ipv4 then a.string else b'[' ∷ (a.string ++ b']' ∷ [])

-- A double quotation mark is doubled.
unfoldable pub double_quotes : Text → Text
double_quotes [] = []
double_quotes (u ∷ us) = let rest = double_quotes us in if u == b'"' then u ∷ u ∷ rest else u ∷ rest

module _ (files : Files) where
  unfoldable pub rclone_arguments : FileServerOptions → ServerSpec → BackendOptions → List Text
  rclone_arguments o spec backend =
      (text "serve"
        ∷ spec.command
        ∷ o.root
        ∷ text "--addr"
        ∷ (shown_address o.address ++ b':' ∷ decimal o.port)
        ∷ [])
      ++ (when o.read_only (text "--read-only" ∷ [])
          ++ (when spec.tls (
                (text "--cert" ∷ o.certificate ∷ text "--key" ∷ o.private_key ∷ [])
                ++ when (not (runs spec "ftp")) (text "--min-tls-version" ∷ text "tls1.2" ∷ []))
              ++ (when (runs spec "sftp") (
                    text "--key"
                    ∷ o.private_key
                    ∷ text "--authorized-keys"
                    ∷ (if is_empty o.authorized_keys then files.null_device else o.authorized_keys)
                    ∷ [])
                  ++ (when (runs spec "nfs" && not o.read_only) (
                        text "--vfs-cache-mode"
                        ∷ text "full"
                        ∷ text "--vfs-write-back"
                        ∷ text "0s"
                        ∷ [])
                      ++ (when (runs spec "ftp") (
                            (text "--passive-port" ∷ o.passive_ports ∷ [])
                            ++ when (has_name o.public_address)
                                (text "--public-ip" ∷ o.public_address ∷ []))
                          ++ common_arguments files backend)))))

  unfoldable pub python_arguments : FileServerOptions → ServerSpec → BackendOptions → List Text
  python_arguments o spec backend =
      (text "-B"
        ∷ backend.ftp_server_script
        ∷ text "--root"
        ∷ o.root
        ∷ text "--address"
        ∷ o.address.string
        ∷ text "--port"
        ∷ decimal o.port
        ∷ text "--certificate"
        ∷ o.certificate
        ∷ text "--key"
        ∷ o.private_key
        ∷ text "--passive-ports"
        ∷ o.passive_ports
        ∷ [])
      ++ (when (runs spec "ftps") (text "--implicit" ∷ [])
          ++ (when o.read_only (text "--read-only" ∷ [])
              ++ when (has_name o.public_address)
                  (text "--public-address" ∷ o.public_address ∷ [])))

  unfoldable pub login_variables : FileServerOptions → ServerSpec → List (Text × Text)
  login_variables o spec =
      if python_ftp spec
      then (text "IIWEBSERVER_FTP_USER", o.username)
        ∷ (text "IIWEBSERVER_FTP_PASSWORD", files.from_utf8 o.password)
        ∷ []
      else if runs spec "s3"
      then (
        text "RCLONE_AUTH_KEY",
        b'"' ∷ (double_quotes (o.username ++ b',' ∷ files.from_utf8 o.password) ++ b'"' ∷ []),
      )
        ∷ []
      else if spec.auth
      then (text "RCLONE_USER", o.username)
        ∷ (if is_empty o.password
            then []
            else (text "RCLONE_PASS", files.from_utf8 o.password) ∷ [])
      else []

  abbrev pub launch : FileServerOptions → ServerSpec → BackendOptions → ServerEffect
  launch o spec backend =
      launches
        (if python_ftp spec then backend.ftp_python_executable else executable_of files backend)
        (if python_ftp spec
          then python_arguments o spec backend
          else rclone_arguments o spec backend)
        (put_all (login_variables o spec) (environment files backend))

  -- FileProtocolServer::start
  unfoldable pub start_server :
      (Text → Option Address) → FileServerOptions → FileServer → Bool × FileServer
  start_server parse_address o d =
      let error = validate_server files parse_address d.backend o in
      if d.process
      then (false, record d { error = text "already_running" })
      else if not (is_empty error)
      then (false, record d { error = error })
      else (
        true,
        record d {
          error = [];
          stopping = false;
          process = true;
          effects = d.effects ++ launch o (server_spec o.protocol) d.backend ∷ [];
        },
      )

-- QProcess::started
unfoldable pub process_started : FileServer → FileServer
process_started d = record d { signals = d.signals ++ started ∷ [] }

-- QProcess::finished
unfoldable pub process_finished : FileServer → FileServer
process_finished d =
    if d.stopping
    then record d { process = false; signals = d.signals ++ stopped ∷ [] }
    else record d {
      process = false;
      error = text "server_exited";
      signals = d.signals ++ failed (text "server_exited") ∷ stopped ∷ [];
    }

-- QProcess::errorOccurred with FailedToStart
unfoldable pub process_failed_to_start : FileServer → FileServer
process_failed_to_start d = record d {
  process = false;
  error = text "backend_start_failed";
  signals = d.signals ++ failed (text "backend_start_failed") ∷ stopped ∷ [];
}

-- FileProtocolServer::stop; the timer that kills a child that does not end is the child's.
unfoldable pub stop_server : FileServer → FileServer
stop_server d =
    if d.process then record d { stopping = true; effects = d.effects ++ terminates ∷ [] } else d

-- ===== src/Storage/Proofs/Guarded.antt =====
-- What a file server that passes `validateServer` fulfils.
use ii_server_host.Prelude.Checks.{◌otherwise◌, fail_if, otherwise-empty, fail_if-empty, passed}
use ii_server_host.Prelude.{
  ◌==◌, Bool-cases, ◌≡◌, refl, sym, ◌∙◌, ◌⊎◌, inl, inr, false≢true, true, false, ◌&&◌, ◌||◌, not,
  Option, [], ◌∷◌, ◌++◌, arith,
}
use ii_server_host.Prelude.Text.{Text, text, eq, eq_iff, is_empty, starts_with}
use ii_server_host.Protocol.{Address}
use ii_server_host.Storage.Backend.{
  Files, BackendOptions, private_path, validate_backend, remote_location, validate_location, inside,
}
use ii_server_host.Storage.Server.{
  FileServerOptions, ServerSpec, server_spec, runs, python_ftp, has_name, root_error, lacks_login,
  bad_login, unusable_file, key_error, ftp_error, python_error, listen_error, validate_server,
}

-- A path lies in a directory: in `/` if it is absolute, and else if it is the directory or has it
-- and a slash in front.
abbrev pub Within : Text → Text → Type 0
Within path root =
    ((root ≡ text "/") × (starts_with path (text "/") ≡ true))
    ⊎ ((path ≡ root) ⊎ ((rest : Text) × (path ≡ root ++ b'/' ∷ rest)))

starts_with-below :
    (root rest : Text) → starts_with (root ++ b'/' ∷ rest) (root ++ b'/' ∷ []) ≡ true
unfolding starts_with
starts_with-below [] rest = refl
starts_with-below (u ∷ root) rest = ground (arith, starts_with-below root rest)

module _ (files : Files) (parse_address : Text → Option Address) (backend : BackendOptions)
    (o : FileServerOptions) where
  pub record IsListenable (spec : ServerSpec) : Type 0 where
    pub port : (o.port == 0) ≡ false
    pub login : lacks_login files parse_address backend o spec ≡ false
    pub clean_login : bad_login files parse_address backend o ≡ false
    pub private :
        (spec.tls || (runs spec "sftp" || (o.address.is_loopback || o.allow_cleartext))) ≡ true

  listen-IsListenable :
      (spec : ServerSpec) → listen_error files parse_address backend o spec ≡ [] → IsListenable spec
  unfolding listen_error text
  listen-IsListenable spec e =
      let (port, e) =
        passed (o.port == 0 || o.address.is_multicast) "invalid_listen_address" _ refl e in
      let (command, e) = passed (is_empty spec.command) "unsupported_protocol" _ refl e in
      let (login, e) =
        passed (lacks_login files parse_address backend o spec) "authentication_required" _ refl
          e in
      let exposed =
        not spec.tls
        && not (runs spec "sftp")
        && not o.address.is_loopback
        && not o.allow_cleartext in
      let (clean, e) =
        passed (bad_login files parse_address backend o) "invalid_credentials"
          (fail_if exposed "cleartext_disabled") refl e in
      record {
        port = ground (arith, port);
        login = login;
        clean_login = clean;
        private = ground (arith, fail_if-empty exposed "cleartext_disabled" refl e);
      }

  -- The path of this name, cleaned, does not lie in the exported root.
  abbrev pub IsOutside : Text → Type 0
  IsOutside path = ¬ Within (files.clean path) (files.canonical o.root)

  pub record IsSecret : Type 0 where
    pub runtime : IsOutside backend.runtime_directory
    pub config : has_name backend.config_file ≡ true → IsOutside backend.config_file
    pub key : has_name o.private_key ≡ true → IsOutside o.private_key

  not-inside :
      (path : Text)
      → ¬ (files.canonical o.root ≡ text "/")
      → inside files path (files.canonical o.root) ≡ false
      → IsOutside path
  unfolding inside
  not-inside path n h (inl (root, below)) = n root
  not-inside path n h (inr (inl same)) =
      false≢true
        (sym (ground (arith, h)) ∙ (eq_iff (files.clean path) (files.canonical o.root)).1 same)
  not-inside path n h (inr (inr (rest, below))) =
      let no : starts_with (files.clean path) (files.canonical o.root ++ b'/' ∷ []) ≡ false =
        ground (arith, h) in
      false≢true (sym no ∙ (rw below (starts_with-below (files.canonical o.root) rest)))

  kept_apart :
      (inside files backend.runtime_directory (files.canonical o.root)
          || (has_name backend.config_file
              && inside files backend.config_file (files.canonical o.root))
          || (has_name o.private_key && inside files o.private_key (files.canonical o.root)))
        ≡ false
      → (files.canonical o.root ≡ text "/") ⊎ IsSecret
  kept_apart k = elim (Bool-cases (eq (files.canonical o.root) (text "/"))) [
    | inl y ↦ inl ((eq_iff (files.canonical o.root) (text "/")).0 y)
    | inr n ↦
        let other : ¬ (files.canonical o.root ≡ text "/") =
          λ same. false≢true (sym n ∙ (eq_iff (files.canonical o.root) (text "/")).1 same) in
        inr (record {
          runtime = not-inside backend.runtime_directory other (ground (arith, k));
          config = λ h. not-inside backend.config_file other (ground (arith, k, h));
          key = λ h. not-inside o.private_key other (ground (arith, k, h));
        })
  ]

  root-IsSecret :
      root_error files parse_address backend o ≡ []
      → remote_location files o.root ≡ false
      → (files.canonical o.root ≡ text "/") ⊎ IsSecret
  unfolding root_error text
  root-IsSecret e l =
      let exposed =
        inside files backend.runtime_directory (files.canonical o.root)
        || (has_name backend.config_file
            && inside files backend.config_file (files.canonical o.root))
        || (has_name o.private_key && inside files o.private_key (files.canonical o.root)) in
      let bad =
        not (files.is_dir o.root)
        || files.is_sym_link o.root
        || not (eq (files.canonical o.root) (files.clean o.root)) in
      elim (Bool-cases bad) [
        | inl b ↦ cc
        | inr b ↦
            (let k : exposed ≡ false =
                fail_if-empty exposed "secrets_inside_exported_root" refl (rw (l, b) at e) in
              kept_apart k)
      ]

  pub record IsGuarded : Type 0 where
    pub location : validate_location files o.root backend ≡ []
    pub backend_ready :
        validate_backend files backend (not (python_ftp (server_spec o.protocol))) ≡ []
    pub secret :
        remote_location files o.root ≡ false → (files.canonical o.root ≡ text "/") ⊎ IsSecret
    pub listenable : IsListenable (server_spec o.protocol)
    pub identity :
        (server_spec o.protocol).tls ≡ true → private_path files o.private_key false ≡ true
    pub host_key :
        runs (server_spec o.protocol) "sftp" ≡ true → private_path files o.private_key false ≡ true

  key_error-tls :
      (spec : ServerSpec)
      → key_error files parse_address backend o spec ≡ []
      → (spec.tls || runs spec "sftp") ≡ true
      → private_path files o.private_key false ≡ true
  unfolding key_error text
  key_error-tls spec e s =
      let lacks =
        spec.tls
        && (unusable_file files parse_address backend o.certificate
            || not (private_path files o.private_key false)) in
      let (tls, e) = passed lacks "tls_identity_required" _ refl e in
      let rest =
        fail_if
          (runs spec "sftp"
            && has_name o.authorized_keys
            && unusable_file files parse_address backend o.authorized_keys)
          "invalid_authorized_keys" in
      let (ssh, e) =
        passed (runs spec "sftp" && not (private_path files o.private_key false))
          "ssh_host_key_required" rest refl e in
      ground (arith, tls, ssh, s)

  -- A file server that passes `validateServer` has a valid location and backend, does not have its
  -- runtime directory, configuration or key in a local root unless the root is `/`, has a login
  -- where it needs one, is encrypted unless it listens on the loopback or cleartext is allowed, and
  -- has a private key where it uses one.
  pub validate_server_sound : validate_server files parse_address backend o ≡ [] → IsGuarded
  unfolding validate_server
  validate_server_sound e =
      let spec = server_spec o.protocol in
      let (ready, e) =
        otherwise-empty (validate_backend files backend (not (python_ftp spec))) _ e in
      let (location, e) = otherwise-empty (validate_location files o.root backend) _ e in
      let (root, e) = otherwise-empty (root_error files parse_address backend o) _ e in
      let (listen, e) = otherwise-empty (listen_error files parse_address backend o spec) _ e in
      let rest =
        fail_if (runs spec "restic" && o.read_only) "readonly_not_supported_by_restic"
        otherwise ftp_error files parse_address backend o spec
        otherwise python_error files parse_address backend o spec in
      let (key, e) = otherwise-empty (key_error files parse_address backend o spec) rest e in
      record {
        location = location;
        backend_ready = ready;
        secret = root-IsSecret root;
        listenable = listen-IsListenable spec listen;
        identity = λ t. key_error-tls spec key (ground (arith, t));
        host_key = λ t. key_error-tls spec key (ground (arith, t));
      }

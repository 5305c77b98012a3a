-- ===== src/Storage/Proofs/Confined.antt =====
-- src/StorageBridge.cpp: the environment of a child process, and that of a file server's child.
use ii_server_host.Storage.Server.{FileServerOptions, ServerSpec, runs, python_ftp}
use ii_server_host.Storage.Serving.{login_variables}
use ii_server_host.Prelude.Dict
use ii_server_host.Prelude.{
  Bool-cases, if_rule, ◌≡◌, refl, ◌∙◌, ◌⊎◌, inl, inr, true, false, Option, none, some, List, [],
  ◌∷◌, arith,
}
use ii_server_host.Prelude.Text.{Text, text, eq, eq_iff, is_empty}
use ii_server_host.Prelude.Dict.{nat_eq, text_eq, Dict}
use ii_server_host.Storage.Backend.{
  Files, BackendOptions, inherited_keys, put_all, inherit_found, inherit, own_variables,
  environment,
}

-- The names of the variables that a child may be given.
abbrev pub child_keys : List Text
child_keys =
    text "TMPDIR"
    ∷ text "TMP"
    ∷ text "TEMP"
    ∷ text "USERPROFILE"
    ∷ text "HOME"
    ∷ text "PYTHONNOUSERSITE"
    ∷ text "RCLONE_CONFIG_PASS"
    ∷ inherited_keys

-- The names of the variables that hold the login of a file server.
abbrev pub login_keys : List Text
login_keys =
    text "RCLONE_AUTH_KEY"
    ∷ text "RCLONE_USER"
    ∷ text "RCLONE_PASS"
    ∷ text "IIWEBSERVER_FTP_USER"
    ∷ text "IIWEBSERVER_FTP_PASSWORD"
    ∷ []

-- The names of the variables for the directories that a child uses.
abbrev pub directory_keys : List Text
directory_keys = text "TMPDIR" ∷ text "TMP" ∷ text "TEMP" ∷ text "USERPROFILE" ∷ text "HOME" ∷ []

-- An environment has no variable but these, and its directories are the runtime directory.
pub record IsConfined (backend : BackendOptions) (env : Dict Text Text) : Type 0 where
  pub closed :
      (k : Text)
      → Dict.contains k env ≡ true
      → (Dict.listed k child_keys ≡ true) ⊎ (Dict.listed k login_keys ≡ true)
  pub directories :
      (k : Text)
      → Dict.listed k directory_keys ≡ true
      → Dict.find k env ≡ some backend.runtime_directory

AllOf : (Text → Type 0) → List Text → Type 0
AllOf P [] = Unit
AllOf P (k ∷ ks) = P k × AllOf P ks

of-AllOf :
    (P : Text → Type 0) (k : Text) (ks : List Text) → AllOf P ks → Dict.listed k ks ≡ true → P k
unfolding AllOf
of-AllOf P k [] a h = absurd (cc h)
of-AllOf P k (j ∷ ks) a h = elim (Bool-cases (eq j k)) [
  | inl y ↦ (let same : j ≡ k = (eq_iff j k).0 y in rw (← same) a.0)
  | inr n ↦ of-AllOf P k ks a.1 (ground (arith, h, n))
]

module _ (files : Files) where
  contains-inherit_found :
      (key k : Text) (o : Option Text) (env : Dict Text Text)
      → Dict.contains k (inherit_found files key o env) ≡ true
      → (eq key k ≡ true) ⊎ (Dict.contains k env ≡ true)
  contains-inherit_found key k none env h = inr h
  contains-inherit_found key k (some v) env h =
      ground (arith, Dict.contains_of_insert key k v env h, eq_iff key k)

  contains-inherit :
      (k : Text) (ks : List Text) (env : Dict Text Text)
      → Dict.contains k (inherit files ks env) ≡ true
      → (Dict.listed k ks ≡ true) ⊎ (Dict.contains k env ≡ true)
  unfolding inherit
  contains-inherit k [] env h = inr h
  contains-inherit k (key ∷ ks) env h = ground (
    arith,
    contains-inherit k ks (inherit_found files key (Dict.find key files.system) env) h,
    contains-inherit_found key k (Dict.find key files.system) env,
  )

  contains-put_all :
      (k : Text) (vs : List (Text × Text)) (env : Dict Text Text)
      → Dict.contains k (put_all vs env) ≡ true
      → (Dict.listed k (Dict.keys vs) ≡ true) ⊎ (Dict.contains k env ≡ true)
  unfolding put_all Dict.keys
  contains-put_all k [] env h = inr h
  contains-put_all k ((key, v) ∷ vs) env h = ground (
    arith,
    contains-put_all k vs (Dict.insert key v env) h,
    Dict.contains_of_insert key k v env,
    eq_iff key k,
  )

  own_variables-closed :
      (o : BackendOptions) (k : Text)
      → Dict.listed k (Dict.keys (own_variables files o)) ≡ true
      → Dict.listed k child_keys ≡ true
  unfolding own_variables Dict.keys
  own_variables-closed o k =
      if_rule
        (λ vs.
          Dict.listed k (
              Dict.keys (
                (text "TMPDIR", o.runtime_directory)
                ∷ (text "TMP", o.runtime_directory)
                ∷ (text "TEMP", o.runtime_directory)
                ∷ (text "USERPROFILE", o.runtime_directory)
                ∷ (text "HOME", o.runtime_directory)
                ∷ (text "PYTHONNOUSERSITE", text "1")
                ∷ vs))
            ≡ true
          → Dict.listed k child_keys ≡ true)
        (is_empty o.config_password) (λ _ h. ground (arith, h)) (λ _ h. ground (arith, h))

  environment_closed :
      (o : BackendOptions) (k : Text)
      → Dict.contains k (environment files o) ≡ true
      → Dict.listed k child_keys ≡ true
  unfolding environment Dict.find
  environment_closed o k h = ground (
    arith,
    contains-put_all k (own_variables files o) (inherit files inherited_keys []) h,
    own_variables-closed o k,
    contains-inherit k inherited_keys [],
  )

  login_variables-closed :
      (o : FileServerOptions) (spec : ServerSpec) (k : Text)
      → Dict.listed k (Dict.keys (login_variables files o spec)) ≡ true
      → Dict.listed k login_keys ≡ true
  unfolding login_variables Dict.keys
  login_variables-closed o spec k =
      let P : List (Text × Text) → Type 0 =
        λ vs. Dict.listed k (Dict.keys vs) ≡ true → Dict.listed k login_keys ≡ true in
      if_rule P (python_ftp spec) (λ _ h. ground (arith, h))
        λ _.
          if_rule P (runs spec "s3") (λ _ h. ground (arith, h))
            λ _.
              if_rule P spec.auth
                (λ _.
                  if_rule
                    (λ vs.
                      Dict.listed k (Dict.keys ((text "RCLONE_USER", o.username) ∷ vs)) ≡ true
                      → Dict.listed k login_keys ≡ true)
                    (is_empty o.password) (λ _ h. ground (arith, h)) (λ _ h. ground (arith, h)))
                (λ _ h. ground (arith, h))

  -- The login does not touch the variables of the directories.
  find-put_all :
      (k : Text) (vs : List (Text × Text)) (env : Dict Text Text)
      → Dict.listed k (Dict.keys vs) ≡ false
      → Dict.find k (put_all vs env) ≡ Dict.find k env
  unfolding put_all Dict.keys
  find-put_all k [] env h = refl
  find-put_all k ((key, v) ∷ vs) env h =
      find-put_all k vs (Dict.insert key v env) (ground (arith, h))
      ∙ ground (arith, h, Dict.find-insert key k v env)

  directories_there :
      (o : BackendOptions)
      → AllOf (λ k. Dict.find k (environment files o) ≡ some o.runtime_directory) directory_keys
  unfolding environment own_variables put_all text eq Dict.find Dict.insert Dict.remove AllOf
  directories_there o = elim (Bool-cases (is_empty o.config_password)) [
    | inl e ↦ rw e (refl, (refl, (refl, (refl, (refl, tt)))))
    | inr e ↦ rw e (refl, (refl, (refl, (refl, (refl, tt)))))
  ]

  own_directories :
      (o : BackendOptions) (k : Text)
      → Dict.listed k directory_keys ≡ true
      → Dict.find k (environment files o) ≡ some o.runtime_directory
  own_directories o k =
      of-AllOf (λ j. Dict.find j (environment files o) ≡ some o.runtime_directory) k directory_keys
        (directories_there o)

  not-login_key :
      (k : Text) → Dict.listed k directory_keys ≡ true → Dict.listed k login_keys ≡ false
  unfolding text eq AllOf
  not-login_key k =
      of-AllOf (λ j. Dict.listed j login_keys ≡ false) k directory_keys
        (refl, (refl, (refl, (refl, (refl, tt)))))

  -- The environment of a file server's child is confined.
  pub launched-IsConfined :
      (o : FileServerOptions) (spec : ServerSpec) (backend : BackendOptions)
      → IsConfined backend (put_all (login_variables files o spec) (environment files backend))
  unfolding Dict.find
  launched-IsConfined o spec backend =
      let login = login_variables files o spec in
      record {
        closed = λ k h. ground (
          arith,
          contains-put_all k login (environment files backend) h,
          login_variables-closed o spec k,
          environment_closed backend k,
        );
        directories = λ k h.
            find-put_all k login (environment files backend)
              (ground (arith, login_variables-closed o spec k, not-login_key k h))
            ∙ own_directories backend k h;
      }

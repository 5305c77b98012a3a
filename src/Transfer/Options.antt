-- ===== src/Transfer/Options.antt =====
-- `perform`: the options that are set on the libcurl handle, in order, and the request headers. The
-- user's name in UTF-8, a file's name as bytes and the encoded URL are parameters.
use ii_server_host.Prelude.{if◌then◌else◌, ℕ, String, Bool, ◌&&◌, ◌||◌, not, List, [], ◌∷◌, ◌++◌}
use ii_server_host.Prelude.Text.{Text, Bytes, text, eq, is_empty, starts_with, to_latin1}
use ii_server_host.Prelude.Int.{ℤ, pos, is_zero}
use ii_server_host.Transfer.Protocols.{wire_scheme}
use ii_server_host.Transfer.Validate.{TransferRequest, is_upload, is_list}

-- A value: a number, the name of a constant or of a callback, or bytes.
pub data OptionValue : Type 0 where
  number : ℤ → OptionValue
  named : String → OptionValue
  bytes : Bytes → OptionValue

abbrev pub Setting : Type 0
Setting = Text × OptionValue

abbrev set : String → OptionValue → Setting
set name value = (text name, value)

abbrev set_if : Bool → String → OptionValue → List Setting
set_if b name value = if b then set name value ∷ [] else []

abbrev set_bytes : String → Bytes → List Setting
set_bytes name value = set_if (not (is_empty value)) name (bytes value)

unfoldable pub http_version_option : Text → List Setting
http_version_option v =
    if eq v (text "1.0")
    then set "HTTP_VERSION" (named "HTTP_VERSION_1_0") ∷ []
    else if eq v (text "1.1")
    then set "HTTP_VERSION" (named "HTTP_VERSION_1_1") ∷ []
    else if eq v (text "2")
    then set "HTTP_VERSION" (named "HTTP_VERSION_2_0") ∷ []
    else set_if (eq v (text "3")) "HTTP_VERSION" (named "HTTP_VERSION_3")

module _ (to_utf8 encode_name : Text → Bytes) (encoded_url : Bytes) (input_size : ℕ)
    (r : TransferRequest) where
  -- The options that every transfer sets.
  unfoldable pub fixed_options : List Setting
  fixed_options =
      set "URL" (bytes encoded_url)
      ∷ set "PROTOCOLS_STR" (bytes (wire_scheme r.url.scheme))
      ∷ set "FOLLOWLOCATION" (number (pos 0))
      ∷ set "NETRC" (named "NETRC_IGNORED")
      ∷ set "PROXY" (bytes [])
      ∷ set "NOSIGNAL" (number (pos 1))
      ∷ set "SSL_VERIFYPEER" (number (pos 1))
      ∷ set "SSL_VERIFYHOST" (number (pos 2))
      ∷ set "SSLVERSION" (named "SSLVERSION_TLSv1_2")
      ∷ set "CONNECTTIMEOUT_MS" (number r.connect_timeout_ms)
      ∷ set "TIMEOUT_MS" (number r.timeout_ms)
      ∷ set "FAILONERROR" (number (pos 1))
      ∷ []

  unfoldable pub callback_options : List Setting
  callback_options =
      set "WRITEFUNCTION" (named "writeData")
      ∷ set "WRITEDATA" (named "io")
      ∷ set "XFERINFOFUNCTION" (named "progressData")
      ∷ set "XFERINFODATA" (named "io")
      ∷ set "NOPROGRESS" (number (pos 0))
      ∷ []

  unfoldable pub credential_options : List Setting
  credential_options =
      set_if (not (is_zero r.maximum_bytes)) "MAXFILESIZE_LARGE" (number r.maximum_bytes)
      ++ (set_if (not (is_empty r.username)) "USERNAME" (bytes (to_utf8 r.username))
          ++ (set_bytes "PASSWORD" r.password
              ++ (set_if (not (is_empty r.ca_file)) "CAINFO" (bytes (encode_name r.ca_file))
                  ++ (set_if (not (is_empty r.client_certificate)) "SSLCERT"
                        (bytes (encode_name r.client_certificate))
                      ++ (set_if (not (is_empty r.client_key)) "SSLKEY"
                            (bytes (encode_name r.client_key))
                          ++ (set_bytes "KEYPASSWD" r.key_password
                              ++ (set_if (not (is_empty r.ssh_known_hosts)) "SSH_KNOWNHOSTS"
                                    (bytes (encode_name r.ssh_known_hosts))
                                  ++ (set_if (not (is_empty r.ssh_private_key))
                                        "SSH_PRIVATE_KEYFILE"
                                        (bytes (encode_name r.ssh_private_key))
                                      ++ (set_if (not (is_empty r.ssh_public_key))
                                            "SSH_PUBLIC_KEYFILE"
                                            (bytes (encode_name r.ssh_public_key))
                                          ++ (set_if (not (is_empty r.aws_sig_v4)) "AWS_SIGV4"
                                                (bytes (to_latin1 r.aws_sig_v4))
                                              ++ set_if
                                                  (eq r.url.scheme (text "ftpes")
                                                    || eq r.url.scheme (text "ftps"))
                                                  "USE_SSL" (named "USESSL_ALL")))))))))))

  unfoldable pub direction_options : List Setting
  direction_options =
      if is_upload r.operation
      then set "UPLOAD" (number (pos 1))
        ∷ set "READFUNCTION" (named "readData")
        ∷ set "READDATA" (named "io")
        ∷ set "SEEKFUNCTION" (named "seekData")
        ∷ set "SEEKDATA" (named "io")
        ∷ set "INFILESIZE_LARGE" (number (pos input_size))
        ∷ []
      else if is_list r.operation
      then (if starts_with r.url.scheme (text "webdav")
          then set "CUSTOMREQUEST" (bytes (text "PROPFIND")) ∷ []
          else set "DIRLISTONLY" (number (pos 1)) ∷ [])
      else []

  -- The headers that are sent besides libcurl's own.
  unfoldable pub request_headers : List Bytes
  request_headers =
      (if is_empty r.bearer_token
        then []
        else (text "Authorization: Bearer " ++ r.bearer_token) ∷ [])
      ++ (if is_list r.operation && starts_with r.url.scheme (text "webdav")
          then text "Depth: 1" ∷ []
          else [])

  unfoldable pub handle_options : List Setting
  handle_options =
      fixed_options
      ++ (http_version_option r.http_version
          ++ (callback_options
              ++ (credential_options
                  ++ (direction_options
                      ++ set_if (not (is_empty request_headers)) "HTTPHEADER" (named "headers")))))

-- ===== src/Transfer/Protocols.antt =====
-- `wireScheme`, `FileTransfer::protocols` and `FileTransfer::httpVersions`. What the linked libcurl
-- reports is a `Backend`.
use ii_server_host.Prelude.{
  if◌then◌else◌, any, String, Bool, true, false, ◌&&◌, ◌||◌, not, Option, none, some, List, [], ◌∷◌,
  ◌++◌,
}
use ii_server_host.Prelude.Text.{Text, text, eq}

pub record Backend : Type 0 where
  pub ready : Bool  -- curl_global_init succeeded
  pub wire_protocols : List Text
  pub ssl : Bool
  pub http2 : Bool
  pub http3 : Bool

pub record TransferProtocol : Type 0 where
  pub scheme : Text
  pub download : Bool
  pub upload : Bool
  pub list : Bool
  pub encrypted : Bool

unfoldable pub wire_scheme : Text → Text
wire_scheme scheme =
    if eq scheme (text "webdav")
    then text "http"
    else if eq scheme (text "webdavs")
    then text "https"
    else if eq scheme (text "ftpes")
    then text "ftp"
    else scheme

abbrev row : String → Bool → Bool → Bool → Bool → TransferProtocol
row scheme download upload list encrypted = record {
  scheme = text scheme;
  download = download;
  upload = upload;
  list = list;
  encrypted = encrypted;
}

unfoldable pub candidates : List TransferProtocol
candidates =
    row "file" true true false false
    ∷ row "http" true true false false
    ∷ row "https" true true false true
    ∷ row "webdav" true true true false
    ∷ row "webdavs" true true true true
    ∷ row "ftp" true true true false
    ∷ row "ftps" true true true true
    ∷ row "ftpes" true true true true
    ∷ row "sftp" true true true true
    ∷ row "scp" true true false true
    ∷ row "tftp" true true false false
    ∷ row "smb" true true false false
    ∷ row "smbs" true true false true
    ∷ row "gopher" true false false false
    ∷ row "gophers" true false false true
    ∷ []

-- Does the linked libcurl speak the candidate's wire protocol?
unfoldable pub supported : Backend → TransferProtocol → Bool
supported backend candidate =
    any (λ p. eq (wire_scheme candidate.scheme) p) backend.wire_protocols
    && (not (eq candidate.scheme (text "ftpes")) || backend.ssl)

unfoldable pub supported_of : Backend → List TransferProtocol → List TransferProtocol
supported_of backend [] = []
supported_of backend (c ∷ cs) =
    let rest = supported_of backend cs in if supported backend c then c ∷ rest else rest

-- FileTransfer::protocols
unfoldable pub protocols : Backend → List TransferProtocol
protocols backend = if backend.ready then supported_of backend candidates else []

abbrev is_http : TransferProtocol → Bool
is_http p = eq p.scheme (text "http") || eq p.scheme (text "https")

-- FileTransfer::httpVersions
unfoldable pub http_versions : Backend → List Text
http_versions backend =
    if not backend.ready || not (any is_http (protocols backend))
    then []
    else (text "1.0" ∷ text "1.1" ∷ [])
      ++ ((if backend.http2 then text "2" ∷ [] else [])
          ++ (if backend.http3 then text "3" ∷ [] else []))

unfoldable pub find_protocol : Text → List TransferProtocol → Option TransferProtocol
find_protocol scheme [] = none
find_protocol scheme (p ∷ ps) = if eq p.scheme scheme then some p else find_protocol scheme ps

-- ===== src/Account.antt =====
-- src/SessionAuthenticator.cpp: which credentials are sent to the account authority, and which
-- answers make a principal.
pub mod Proofs
use ii_server_host.Prelude.{
  ltb, leb, ◌==◌, if◌then◌else◌, length, ℕ, ◌+◌, Bool, ◌&&◌, ◌||◌, not, Option, [],
}
use ii_server_host.Prelude.Text.{Text, Bytes, text, is_empty}
use ii_server_host.Prelude.Patterns.{has_unit}
use ii_server_host.Json.{Object, end, to_str, to_object, value, has}
use ii_server_host.Protocol.{Address, Url, Principal, live, endpoint}

-- What the network library hands to the completion.
pub record Answer : Type 0 where
  pub error : Text
  pub status : ℕ
  pub body : Bytes
  pub content_type : Text

-- The request is refused before it is sent.
unfoldable pub refuses : (Text → Option Address) → Url → Bytes → ℕ → Bool
refuses parse_address url cookie running =
    not (endpoint parse_address url (text "https") (text "http"))
    || is_empty cookie
    || ltb 16384 (length cookie)
    || has_unit 13 cookie
    || has_unit 10 cookie
    || has_unit 0 cookie
    || leb 64 running

abbrev pub empty_principal : Principal
empty_principal = record { account_id = []; expires_at = 0 }

-- The account of an envelope; an envelope with errors has none.
unfoldable pub account_of : Object → Object
account_of envelope =
    if has (text "errors") envelope
    then end
    else to_object (
        value (text "account")
          (to_object (value (text "accountSession") (to_object (value (text "data") envelope)))))

-- `is_json` says that the content type before a semicolon is application/json in any case, and
-- `parse` gives the object of a document.
unfoldable pub acceptable : (Text → Bool) → Answer → Bool
acceptable is_json a =
    is_empty a.error && a.status == 200 && leb (length a.body) 65536 && is_json a.content_type

-- The principal that the completion hands on.
unfoldable pub principal_of : (Text → Bool) → (Bytes → Object) → ℕ → Answer → Principal
principal_of is_json parse now a =
    let p : Principal = record {
      account_id = to_str (value (text "sub") (account_of (parse a.body)));
      expires_at = now + 60000;
    } in
    if acceptable is_json a then if live p now then p else empty_principal else empty_principal

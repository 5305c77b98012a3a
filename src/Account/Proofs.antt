-- ===== src/Account/Proofs.antt =====
-- What an account authority's answer can make.
use ii_server_host.Prelude.{Bool-cases, ℕ, ◌+◌, ◌≡◌, inl, inr, Bool, true, false, arith}
use ii_server_host.Prelude.Text.{Text, Bytes, text, is_empty}
use ii_server_host.Json.{Object, to_str, value, has}
use ii_server_host.Protocol.{live}
use ii_server_host.Account.{Answer, account_of, acceptable, principal_of}

-- A principal with an account that an answer of the account authority makes is live for exactly one
-- minute, from an acceptable answer without errors.
pub principal_of-live :
    (is_json : Text → Bool) (parse : Bytes → Object) (now : ℕ) (a : Answer)
    → is_empty (principal_of is_json parse now a).account_id ≡ false
    → (live (principal_of is_json parse now a) now ≡ true)
      × (((principal_of is_json parse now a).expires_at ≡ now + 60000)
          × ((acceptable is_json a ≡ true) × (has (text "errors") (parse a.body) ≡ false)))
unfolding principal_of account_of value to_str
principal_of-live is_json parse now a e = elim (Bool-cases (has (text "errors") (parse a.body))) [
  | inl h ↦ ground (arith, e, h)
  | inr h ↦ ground (arith, e, h)
]

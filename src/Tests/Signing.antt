-- ===== src/Tests/Signing.antt =====
-- An answer of the account authority, and the principal it makes.
use ii_server_host.Prelude.{◌+◌, ◌≡◌, refl, true, false, [], ◌∷◌}
use ii_server_host.Prelude.Text.{text, eq}
use ii_server_host.Json.{
  str, obj, Object, is_undefined, to_str, to_object, value, has, insert, object,
}
use ii_server_host.Protocol.{live}
use ii_server_host.Account.{Answer, account_of, acceptable, principal_of}
use ii_server_host.Account.Proofs.{principal_of-live}

abbrev good_answer : Answer
good_answer = record { error = []; status = 200; body = 1 ∷ []; content_type = [] }

abbrev envelope : Object
envelope = object (
    (
      text "data",
      obj (
          object (
            (
              text "accountSession",
              obj (
                  object
                    ((text "account", obj (object ((text "sub", str (b'a' ∷ [])) ∷ []))) ∷ [])),
            )
            ∷ [])),
    )
    ∷ [])

principal_of-live_example :
    (live (principal_of (λ t. true) (λ b. envelope) 5 good_answer) 5 ≡ true)
    × (((principal_of (λ t. true) (λ b. envelope) 5 good_answer).expires_at ≡ 5 + 60000)
        × ((acceptable (λ t. true) good_answer ≡ true) × (has (text "errors") envelope ≡ false)))
unfolding acceptable account_of eq has insert is_undefined live object principal_of text to_object
    to_str value
principal_of-live_example = principal_of-live (λ t. true) (λ b. envelope) 5 good_answer refl

-- ===== src/Prelude/Checks.antt =====
-- Checks that return their error, the empty text for none.
use mathlib.Core.Path.{◌≡◌, refl}
use mathlib.Core.Bool.{Bool, true, false}
use mathlib.Core.List.{[], ◌∷◌}
use Prim.Native.String.{String}
use native.Mathlib.Omega.{arith}
use ii_server_host.Prelude.Tests.{if◌then◌else◌}
use ii_server_host.Prelude.Text.{Text, text, is_empty}

-- A check returns its error, or goes on.
infixr 3 ◌otherwise◌
abbrev pub ◌otherwise◌ : Text → Text → Text
[] otherwise next = next
(u ∷ us) otherwise next = u ∷ us

abbrev pub fail_if : Bool → String → Text
fail_if bad code = if bad then text code else []

pub otherwise-empty : (a b : Text) → (a otherwise b) ≡ [] → (a ≡ []) × (b ≡ [])
otherwise-empty [] b e = (refl, e)
otherwise-empty (u ∷ us) b e = cc

pub fail_if-empty :
    (b : Bool) (code : String) → is_empty (text code) ≡ false → fail_if b code ≡ [] → b ≡ false
fail_if-empty true code n e = ground (arith, n, e)
fail_if-empty false code n e = refl

-- A check that is passed leaves the next one.
pub passed :
    (b : Bool) (code : String) (next : Text)
    → is_empty (text code) ≡ false
    → (fail_if b code otherwise next) ≡ []
    → (b ≡ false) × (next ≡ [])
passed b code next n e =
    let both = otherwise-empty (fail_if b code) next e in (fail_if-empty b code n both.0, both.1)

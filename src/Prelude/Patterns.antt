-- ===== src/Prelude/Patterns.antt =====
-- What the patterns and the splits of the sources say of a text.
use Prim.Native.Nat.{ℕ, zero, suc, ◌+◌, ◌/◌, ◌%◌}
use mathlib.Core.Bool.{Bool, ◌||◌}
use mathlib.Core.List.{List, [], ◌∷◌}
use ii_server_host.Prelude.Tests.{ltb, ◌==◌, if◌then◌else◌}
use ii_server_host.Prelude.Text.{Text, contains_unit, is_alnum}

-- The text without a line feed at its end. In the pattern language `$` also matches before one.
unfoldable pub chop_line : Text → Text
chop_line [] = []
chop_line (u ∷ []) = if u == 10 then [] else u ∷ []
chop_line (u ∷ v ∷ us) = u ∷ chop_line (v ∷ us)

unfoldable pub matches_line : (Text → Bool) → Text → Bool
matches_line pattern s = pattern s || pattern (chop_line s)

unfoldable pub word_unit : ℕ → Bool
unfolding is_alnum
word_unit u = is_alnum u || u == b'_' || u == b'-'

-- The parts between the separators; there is always one.
unfoldable pub split_at : ℕ → Text → List Text
split_at sep [] = [] ∷ []
split_at sep (u ∷ us) =
    let rest = split_at sep us in
    if u == sep then [] ∷ rest else elim rest [ [] ↦ (u ∷ []) ∷ [] | p ∷ ps ↦ (u ∷ p) ∷ ps ]

abbrev pub has_unit : ℕ → List ℕ → Bool
has_unit u s = contains_unit s u

-- The decimal digits, most significant first, on fuel; twenty are enough below 2 ^ 64.
unfoldable pub digits : ℕ → ℕ → Text → Text
digits zero n rest = rest
digits (suc fuel) n rest =
    let more = digits fuel (n / 10) ((b'0' + n % 10) ∷ rest) in
    if ltb n 10 then (b'0' + n % 10) ∷ rest else more

abbrev pub decimal : ℕ → Text
decimal n = digits 20 n []

-- ===== src/Base/Text.antt =====
-- Text: equality, `trim` and `toUpperCase`. The upper case is that of ASCII letters, of which
-- the program's symbols consist.
use Prim.Native.Nat.{ℕ, ◌-◌}
use Prim.Native.Char.{Char, code}
use Prim.Native.String.{String}
use mathlib.Core.Bool.{Bool, false, ◌||◌, ◌&&◌}
use mathlib.Core.List.{List, [], ◌∷◌}
use mathlib.Core.Option.{Option, none, some}
use text.Mathlib.Text.{char_at?}
use finance_agent_os.Base.Tests.{leb, eqb, if◌then◌else◌}
pub use text.Mathlib.Text.{◌==◌}
pub use text.Mathlib.TextEquality.{eq_iff}
pub use text.Mathlib.TextPositions.{eq_refl}

-- The white space and line terminators of ECMAScript.
is_space : ℕ → Bool
is_space c =
    (leb 9 c && leb c 13)
    || eqb c 32
    || eqb c 160
    || eqb c 0x1680
    || (leb 0x2000 c && leb c 0x200a)
    || eqb c 0x2028
    || eqb c 0x2029
    || eqb c 0x202f
    || eqb c 0x205f
    || eqb c 0x3000
    || eqb c 0xfeff

trim_start : String → String
unfolding is_space
trim_start String.[] = ""
trim_start (String.◌∷◌ c s) =
    let rest = trim_start s in if is_space (code c) then rest else String.◌∷◌ c s

trim_end : String → String
unfolding is_space
trim_end String.[] = ""
trim_end (String.◌∷◌ c s) =
    let rest = trim_end s in if rest == "" && is_space (code c) then "" else String.◌∷◌ c rest

unfoldable pub trim : String → String
unfolding trim_start trim_end
trim s = trim_start (trim_end s)

upper_char : Char → Char
upper_char c =
    if leb b'a' (code c)
    then elim (char_at? "ABCDEFGHIJKLMNOPQRSTUVWXYZ" (code c - b'a')) [ none ↦ c | some u ↦ u ]
    else c

unfoldable pub to_upper : String → String
unfolding upper_char
to_upper String.[] = ""
to_upper (String.◌∷◌ c s) = String.◌∷◌ (upper_char c) (to_upper s)

lower_char : Char → Char
lower_char c =
    if leb b'A' (code c)
    then elim (char_at? "abcdefghijklmnopqrstuvwxyz" (code c - b'A')) [ none ↦ c | some u ↦ u ]
    else c

unfoldable pub to_lower : String → String
unfolding lower_char
to_lower String.[] = ""
to_lower (String.◌∷◌ c s) = String.◌∷◌ (lower_char c) (to_lower s)

-- The code points of a text.
unfoldable pub codes : String → List ℕ
codes String.[] = []
codes (String.◌∷◌ first rest) = let points = codes rest in code first ∷ points

-- `xs.includes(s)`
abbrev pub includes : List String → String → Bool
includes [] s = false
includes (x ∷ xs) s = x == s || includes xs s

-- `s?.trim() || d`
abbrev pub trimmed_or : Option String → String → String
trimmed_or none d = d
trimmed_or (some s) d = if trim s == "" then d else trim s

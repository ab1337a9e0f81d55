-- ===== src/Base/Lines.antt =====
-- `str.splitlines`, `str.endswith` and the fields of a format string.
use Prim.Native.Nat.{ℕ, ◌-◌}
use mathlib.Core.Bool.{Bool, true, false, ◌&&◌, ◌||◌}
use mathlib.Core.List.{List, [], ◌∷◌, ◌++◌, reverse}
use encrypted_zone_sdk.Base.Tests.{leb, eqb}
use encrypted_zone_sdk.Base.Lists.{length, replicate}
use encrypted_zone_sdk.Base.Text.{Text, starts_with}

-- The characters that end a line.
unfoldable pub is_line_end : ℕ → Bool
is_line_end c =
    leb 10 c && leb c 13 || leb 28 c && leb c 30 || eqb c 0x85 || eqb c 0x2028 || eqb c 0x2029

-- The lines of a text behind the open line `line`; the flag says that the last character was a
-- carriage return, which a line feed joins.
unfoldable pub lines_from : Bool → Text → Text → List Text
unfolding is_line_end
lines_from returned line [] = elim line [ [] ↦ [] | c ∷ cs ↦ (c ∷ cs) ∷ [] ]
lines_from returned line (c ∷ s) = elim (returned && eqb c 10) [
  | true ↦ lines_from false line s
  | false ↦ elim (is_line_end c) [
    | true ↦ line ∷ lines_from (eqb c 13) [] s
    | false ↦ lines_from false (line ++ (c ∷ [])) s
  ]
]

-- `s.splitlines()`
unfoldable pub splitlines : Text → List Text
unfolding lines_from
splitlines s = lines_from false [] s

-- `s.endswith(suffix)`
unfoldable pub ends_with : Text → Text → Bool
ends_with s suffix = starts_with (reverse s) (reverse suffix)

-- `f"{s:>width}"`, as `f"{n:4d}"` is for the digits of `n`.
unfoldable pub pad_left : ℕ → Text → Text
pad_left width s = replicate (width - length s) b' ' ++ s

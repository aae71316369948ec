-- ===== src/Cli/Text.antt =====
-- Rust's `split` and `split_once` at a character, for the commands of crates/agent/src/cmd.
use Prim.Native.Char.{code}
use peer_deploy.Prelude.{ℕ, String, Option, none, some, List, [], ◌∷◌, ◌==◌, if◌then◌else◌}

-- The text before the first `sep` and the text behind it.
unfoldable pub split_once : ℕ → String → Option (String × String)
split_once sep String.[] = none
split_once sep (String.◌∷◌ c s) =
    let rest = split_once sep s in
    if code c == sep
    then some ("", s)
    else elim rest [ none ↦ none | some (a, b) ↦ some (String.◌∷◌ c a, b) ]

-- The pieces of a text: the first, and the others.
unfoldable pub pieces : ℕ → String → String × List String
pieces sep String.[] = ("", [])
pieces sep (String.◌∷◌ c s) =
    let rest = pieces sep s in
    if code c == sep then ("", rest.0 ∷ rest.1) else (String.◌∷◌ c rest.0, rest.1)

unfoldable pub split : ℕ → String → List String
unfolding pieces
split sep s = (pieces sep s).0 ∷ (pieces sep s).1

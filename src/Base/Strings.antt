-- ===== src/Base/Strings.antt =====
-- What the program uses of Go's strings package, on bytes.
use Prim.Native.Nat.{ℕ, ◌-◌}
use mathlib.Core.Bool.{Bool, ◌&&◌}
use mathlib.Core.Option.{Option, none, some}
use mathlib.Core.List.{List, [], ◌∷◌, ◌++◌}
use omniup_vpn.Base.Bools.{◌==◌, leb, if◌then◌else◌}
use omniup_vpn.Base.Lists.{length, take, drop}
use omniup_vpn.Base.Keys.{Text, text_eq, is_blank}

abbrev cut_onto : ℕ → Option (Text × Text) → Option (Text × Text)
cut_onto c none = none
cut_onto c (some (a, b)) = some (c ∷ a, b)

-- strings.Cut at a byte.
unfoldable pub cut : ℕ → Text → Option (Text × Text)
cut sep [] = none
cut sep (c ∷ cs) = if c == sep then some ([], cs) else cut_onto c (cut sep cs)

abbrev split_onto : ℕ → List Text → List Text
split_onto c [] = (c ∷ []) ∷ []
split_onto c (w ∷ ws) = (c ∷ w) ∷ ws

-- strings.Split at a byte.
unfoldable pub split : ℕ → Text → List Text
split sep [] = [] ∷ []
split sep (c ∷ cs) = let rest = split sep cs in if c == sep then [] ∷ rest else split_onto c rest

-- strings.TrimRight and TrimLeft of one byte.
unfoldable pub trim_right : ℕ → Text → Text
trim_right x [] = []
trim_right x (c ∷ cs) =
    let rest = trim_right x cs in if is_blank rest && (c == x) then [] else c ∷ rest

unfoldable pub trim_left : ℕ → Text → Text
trim_left x [] = []
trim_left x (c ∷ cs) = let rest = trim_left x cs in if c == x then rest else c ∷ cs

abbrev pub trim : ℕ → Text → Text
trim x s = trim_right x (trim_left x s)

-- strings.HasSuffix
abbrev pub has_suffix : Text → Text → Bool
has_suffix s suffix =
    leb (length suffix) (length s) && text_eq (drop (length s - length suffix) s) suffix

-- strings.CutPrefix
abbrev pub cut_prefix : Text → Text → Option Text
cut_prefix s prefix =
    if text_eq (take (length prefix) s) prefix then some (drop (length prefix) s) else none

-- strings.Join
unfoldable pub join : Text → List Text → Text
join sep [] = []
join sep (w ∷ []) = w
join sep (w ∷ v ∷ ws) = w ++ (sep ++ join sep (v ∷ ws))

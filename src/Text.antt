-- ===== src/Text.antt =====
-- The functions of the `strings` package that the program calls on paths.
pub mod Parts
use Prim.Native.Char.{code}
use assisted_events_stream.Prelude.{
  ℕ, zero, suc, String, ◌≡◌, refl, Bool, true, false, ◌&&◌, ◌||◌, List, [], ◌∷◌, nat_eq, ◌==◌,
  if◌then◌else◌,
}

-- `strings.HasPrefix(s, p)`
unfoldable pub has_prefix : String → String → Bool
has_prefix String.[] s = true
has_prefix (String.◌∷◌ p ps) String.[] = false
has_prefix (String.◌∷◌ p ps) (String.◌∷◌ c s) = nat_eq (code p) (code c) && has_prefix ps s

-- `strings.Contains(s, sep)`
unfoldable pub contains : String → String → Bool
unfolding has_prefix
contains sep String.[] = has_prefix sep ""
contains sep (String.◌∷◌ c s) = has_prefix sep (String.◌∷◌ c s) || contains sep s

-- the number of characters after the first
abbrev rest_length : String → ℕ
rest_length String.[] = 0
rest_length (String.◌∷◌ c String.[]) = 0
rest_length (String.◌∷◌ c s) = suc (rest_length s)

abbrev pub head : List String → String
head [] = ""
head (s ∷ parts) = s

abbrev pub tail : List String → List String
tail [] = []
tail (s ∷ parts) = parts

-- `skip` characters are left over of a separator that was found
unfoldable pub split_from : String → ℕ → String → List String
unfolding has_prefix
split_from sep skip String.[] = "" ∷ []
split_from sep (suc skip) (String.◌∷◌ c s) = split_from sep skip s
split_from sep zero (String.◌∷◌ c s) =
    let cut = "" ∷ split_from sep (rest_length sep) s in
    let parts = split_from sep zero s in
    let keep = String.◌∷◌ c (head parts) ∷ tail parts in
    if has_prefix sep (String.◌∷◌ c s) then cut else keep

-- `strings.Split(s, sep)`, for a separator that is not empty
unfoldable pub split : String → String → List String
unfolding split_from
split s sep = split_from sep zero s

unfoldable pub trim_left : String → String
trim_left String.[] = ""
trim_left (String.◌∷◌ c s) =
    let rest = trim_left s in if nat_eq (code c) b'.' then rest else String.◌∷◌ c s

abbrev is_empty : String → Bool
is_empty String.[] = true
is_empty (String.◌∷◌ c s) = false

unfoldable pub trim_right : String → String
trim_right String.[] = ""
trim_right (String.◌∷◌ c s) =
    let rest = trim_right s in
    if nat_eq (code c) b'.' && is_empty rest then "" else String.◌∷◌ c rest

-- `strings.Trim(s, ".")`
unfoldable pub trim_dots : String → String
unfolding trim_left trim_right
trim_dots s = trim_right (trim_left s)

split_complex :
    split "cluster.hosts[*].infra_env.user_name" "[*]"
    ≡ "cluster.hosts" ∷ ".infra_env.user_name" ∷ []
unfolding split
split_complex = refl

trim_child : trim_dots ".infra_env.user_name." ≡ "infra_env.user_name"
unfolding trim_dots
trim_child = refl

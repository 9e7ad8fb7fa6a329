-- ===== src/Plans/Paths.antt =====
-- The regular expression for paths that a role may not ask for:
-- `/^(?:[A-Za-z]:|[\\/])|(?:^|[\\/])\.\.(?:[\\/]|$)|(?:auth\.json|\.ssh|\.env)/i`
use agent_router.Prelude.{
  ℕ, ◌+◌, Bool, true, false, [], ◌∷◌, ◌==◌, ◌&&◌, ◌||◌, leb, map, Text, if◌then◌else◌,
}

abbrev pub is_slash : ℕ → Bool
is_slash c = c == 47 || c == 92

abbrev pub lower : ℕ → ℕ
lower c = if leb 65 c && leb c 90 then c + 32 else c

abbrev pub is_letter : ℕ → Bool
is_letter c = leb 97 (lower c) && leb (lower c) 122

-- A drive or a slash at the front.
abbrev pub is_rooted : Text → Bool
is_rooted [] = false
is_rooted (c ∷ []) = is_slash c
is_rooted (c ∷ d ∷ t) = is_slash c || is_letter c && d == 58

-- Two dots up to a slash or the end.
abbrev pub is_up : Text → Bool
is_up [] = false
is_up (a ∷ []) = false
is_up (a ∷ b ∷ []) = a == 46 && b == 46
is_up (a ∷ b ∷ c ∷ t) = a == 46 && b == 46 && is_slash c

-- A segment of two dots after a slash.
unfoldable pub climbs : Text → Bool
climbs [] = false
climbs (c ∷ t) = is_slash c && is_up t || climbs t

unfoldable pub begins : Text → Text → Bool
begins [] t = true
begins (c ∷ s) [] = false
begins (c ∷ s) (d ∷ t) = c == d && begins s t

unfoldable pub contains : Text → Text → Bool
contains s [] = begins s []
contains s (d ∷ t) = begins s (d ∷ t) || contains s t

abbrev pub auth_json : Text
auth_json = 97 ∷ 117 ∷ 116 ∷ 104 ∷ 46 ∷ 106 ∷ 115 ∷ 111 ∷ 110 ∷ []

abbrev pub dot_ssh : Text
dot_ssh = 46 ∷ 115 ∷ 115 ∷ 104 ∷ []

abbrev pub dot_env : Text
dot_env = 46 ∷ 101 ∷ 110 ∷ 118 ∷ []

unfoldable pub path_invalid : Text → Bool
path_invalid t =
    is_rooted t
    || is_up t
    || climbs t
    || contains auth_json (map lower t)
    || contains dot_ssh (map lower t)
    || contains dot_env (map lower t)

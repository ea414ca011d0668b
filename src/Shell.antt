-- ===== src/Shell.antt =====
-- The texts of shell commands: shlex.quote, and concatenation.
use capi_provider_ssh.Base.{
  ℕ, String, code, Bool, true, ◌&&◌, ◌||◌, List, [], ◌∷◌, nat_eq, leb, if◌then◌else◌, truthy,
}
use capi_provider_ssh.Text.{has_char, concat}

-- `"".join(parts)`, and so an f-string
abbrev pub text : List String → String
text [] = ""
text (s ∷ ss) = concat s (text ss)

-- a character outside of `[^\w@%+=:,./-]`, in ASCII
is_safe : ℕ → Bool
is_safe c =
    leb b'a' c && leb c b'z'
    || leb b'A' c && leb c b'Z'
    || leb b'0' c && leb c b'9'
    || has_char c "_@%+=:,./-"

all_safe : String → Bool
all_safe String.[] = true
all_safe (String.◌∷◌ c s) = is_safe (code c) && all_safe s

-- `s.replace("'", "'\"'\"'")`
escape : String → String
escape String.[] = ""
escape (String.◌∷◌ c s) =
    if nat_eq (code c) 39 then concat "'\"'\"'" (escape s) else String.◌∷◌ c (escape s)

-- `shlex.quote(s)`
unfoldable pub quote : String → String
unfolding is_safe all_safe escape has_char
quote s = if truthy s then (if all_safe s then s else concat "'" (concat (escape s) "'")) else "''"

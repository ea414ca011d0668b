-- ===== src/Text/Lines.antt =====
-- Lines, words and parts of a text: Python's splitlines, join, startswith, endswith, `in`, and
-- posixpath.dirname.
use capi_provider_ssh.Base.{
  ℕ, zero, suc, String, Char, code, Bool, true, false, not, ◌&&◌, ◌||◌, List, [], ◌∷◌, nat_eq, leb,
  if◌then◌else◌, truthy, codes_eq,
}
use capi_provider_ssh.Text.{concat, Parts, rpartition, codes}

-- the boundaries of `splitlines`: \n, \v, \f, \r, \x1c to \x1e, \x85, \u2028 and \u2029
pub is_line_end : ℕ → Bool
is_line_end c =
    (leb 10 c && leb c 13)
    || (leb 28 c && leb c 30)
    || nat_eq c 133
    || nat_eq c 8232
    || nat_eq c 8233

abbrev pub start_line : Char → List String → List String
start_line x [] = String.◌∷◌ x "" ∷ []
start_line x (l ∷ ls) = String.◌∷◌ x l ∷ ls

-- `\r\n` is one boundary
abbrev pub is_crlf : ℕ → String → Bool
is_crlf c String.[] = false
is_crlf c (String.◌∷◌ y s) = nat_eq c 13 && nat_eq (code y) 10

-- `s.splitlines()`
unfoldable pub splitlines : String → List String
unfolding is_line_end
splitlines String.[] = []
splitlines (String.◌∷◌ x s) =
    let lines = splitlines s in
    if is_crlf (code x) s
    then lines
    else if is_line_end (code x)
    then "" ∷ lines
    else start_line x lines

-- `sep.join(parts)`
unfoldable pub join_with : (sep : String) → List String → String
join_with sep [] = ""
join_with sep (s ∷ []) = s
join_with sep (s ∷ t ∷ ss) = concat s (concat sep (join_with sep (t ∷ ss)))

abbrev pub newline : String
newline = "\n"

abbrev pub join_lines : List String → String
join_lines = join_with newline

abbrev pub same_char : Char → Char → Bool
same_char x y = nat_eq (code x) (code y)

-- `s.startswith(prefix)`
unfoldable pub starts_with : (prefix s : String) → Bool
starts_with String.[] s = true
starts_with (String.◌∷◌ p ps) String.[] = false
starts_with (String.◌∷◌ p ps) (String.◌∷◌ x s) = same_char p x && starts_with ps s

-- `part in s`
unfoldable pub has_part : (part s : String) → Bool
unfolding starts_with
has_part part String.[] = not (truthy part)
has_part part (String.◌∷◌ x s) = starts_with part (String.◌∷◌ x s) || has_part part s

-- `s.endswith(suffix)`
unfoldable pub ends_with : (suffix s : String) → Bool
ends_with suffix String.[] = not (truthy suffix)
ends_with suffix (String.◌∷◌ x s) =
    codes_eq (codes suffix) (codes (String.◌∷◌ x s)) || ends_with suffix s

-- `s.rstrip(c)` of a text
abbrev strip_last : ℕ → Char → String → String
strip_last c x String.[] = if nat_eq (code x) c then "" else String.◌∷◌ x ""
strip_last c x (String.◌∷◌ y s) = String.◌∷◌ x (String.◌∷◌ y s)

unfoldable pub rstrip_char : ℕ → String → String
rstrip_char c String.[] = ""
rstrip_char c (String.◌∷◌ x s) = strip_last c x (rstrip_char c s)

-- the characters that a test does not drop: `"".join(s.split())` for white space
unfoldable pub drop_chars : (ℕ → Bool) → String → String
drop_chars p String.[] = ""
drop_chars p (String.◌∷◌ x s) =
    let rest = drop_chars p s in if p (code x) then rest else String.◌∷◌ x rest

-- `s.strip(chars)` for the characters of a test
strip_front : (ℕ → Bool) → String → String
strip_front p String.[] = ""
strip_front p (String.◌∷◌ x s) =
    let rest = strip_front p s in if p (code x) then rest else String.◌∷◌ x s

abbrev strip_back_step : (ℕ → Bool) → Char → String → String
strip_back_step p x String.[] = if p (code x) then "" else String.◌∷◌ x ""
strip_back_step p x (String.◌∷◌ y s) = String.◌∷◌ x (String.◌∷◌ y s)

pub strip_back : (ℕ → Bool) → String → String
strip_back p String.[] = ""
strip_back p (String.◌∷◌ x s) = strip_back_step p x (strip_back p s)

unfoldable pub strip_chars : (ℕ → Bool) → String → String
unfolding strip_front strip_back
strip_chars p s = strip_front p (strip_back p s)

only_slashes : String → Bool
only_slashes String.[] = true
only_slashes (String.◌∷◌ x s) = nat_eq (code x) b'/' && only_slashes s

abbrev dir_of_parts : Parts → String
dir_of_parts p =
    if not p.found
    then ""
    else let head = concat p.before "/" in if only_slashes head then head else rstrip_char b'/' head

-- `posixpath.dirname(s)`: what is before the last slash, without the slashes at its end unless it
-- has nothing else
unfoldable pub dirname : String → String
unfolding only_slashes rstrip_char rpartition
dirname s = dir_of_parts (rpartition b'/' s)

-- `len(s)` and `s[:n]`
unfoldable pub text_length : String → ℕ
text_length String.[] = 0
text_length (String.◌∷◌ x s) = suc (text_length s)

unfoldable pub text_take : ℕ → String → String
text_take zero s = ""
text_take (suc n) String.[] = ""
text_take (suc n) (String.◌∷◌ x s) = String.◌∷◌ x (text_take n s)

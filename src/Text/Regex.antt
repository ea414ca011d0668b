-- ===== src/Text/Regex.antt =====
-- The regular expressions of Python's `re` that the provider uses, with their backtracking search.
-- Repetitions are of single characters; `\s` and `\w` are those of ASCII texts.
use capi_provider_ssh.Base.{
  ℕ, zero, suc, String, Char, code, Bool, true, false, not, ◌&&◌, ◌||◌, List, [], ◌∷◌, Option, none,
  some, Dict, is_some, nat_eq, leb, if◌then◌else◌,
}
use capi_provider_ssh.Text.{concat, is_space, lower_code}
use capi_provider_ssh.Text.Lines.{text_length}

pub data Regex : Type 0 where
  -- one character that passes a test
  one : (ℕ → Bool) → Regex
  -- `c*` and `c?` for a class of characters
  many : (ℕ → Bool) → Regex
  maybe : (ℕ → Bool) → Regex
  seq : Regex → Regex → Regex
  alt : Regex → Regex → Regex
  -- `\b` and `$`
  word_boundary : Regex
  text_end : Regex
  -- `(?P<name>...)`
  group : (name : String) → Regex → Regex
  nothing : Regex

-- a place in the text: the character before it, the rest, the text that the innermost group has
-- matched, backwards, and the groups that are closed
pub record Cursor : Type 0 where
  pub before : Option ℕ
  pub rest : String
  pub taken : String
  pub groups : Dict String

abbrev step : Char → String → Cursor → Cursor
step x s c = record c { before = some (code x); rest = s; taken = String.◌∷◌ x c.taken }

pub is_word : ℕ → Bool
is_word c =
    leb b'a' c && leb c b'z'
    || leb b'A' c && leb c b'Z'
    || leb b'0' c && leb c b'9'
    || nat_eq c b'_'

abbrev word_before : Option ℕ → Bool
word_before none = false
word_before (some c) = is_word c

abbrev word_after : String → Bool
word_after String.[] = false
word_after (String.◌∷◌ x s) = is_word (code x)

abbrev differ : Bool → Bool → Bool
differ true b = not b
differ false b = b

-- `$` stands at the end, and before a newline at the end
abbrev at_end : String → Bool
at_end String.[] = true
at_end (String.◌∷◌ x String.[]) = nat_eq (code x) 10
at_end (String.◌∷◌ x (String.◌∷◌ y s)) = false

reverse_onto : String → String → String
reverse_onto String.[] acc = acc
reverse_onto (String.◌∷◌ x s) acc = reverse_onto s (String.◌∷◌ x acc)

unfoldable pub reversed : String → String
unfolding reverse_onto
reversed s = reverse_onto s ""

abbrev first_of : Option Cursor → Option Cursor → Option Cursor
first_of none b = b
first_of (some a) b = some a

abbrev one_of : (ℕ → Bool) → String → Cursor → (Cursor → Option Cursor) → Option Cursor
one_of p String.[] c k = none
one_of p (String.◌∷◌ x s) c k = if p (code x) then k (step x s c) else none

-- the longest repetition first
many_of : (ℕ → Bool) → String → Cursor → (Cursor → Option Cursor) → Option Cursor
many_of p String.[] c k = k c
many_of p (String.◌∷◌ x s) c k =
    let longer = many_of p s (step x s c) k in if p (code x) then first_of longer (k c) else k c

-- a match of the expression at the cursor, followed by a match of the rest
match_at : Regex → Cursor → (Cursor → Option Cursor) → Option Cursor
match_at (one p) c k = one_of p c.rest c k
match_at (many p) c k = many_of p c.rest c k
match_at (maybe p) c k = first_of (one_of p c.rest c k) (k c)
match_at (seq r q) c k = match_at r c (λ d. match_at q d k)
match_at (alt r q) c k = first_of (match_at r c k) (match_at q c k)
match_at word_boundary c k = if differ (word_before c.before) (word_after c.rest) then k c else none
match_at text_end c k = if at_end c.rest then k c else none
match_at nothing c k = k c
match_at (group name r) c k =
    match_at r (record c { taken = "" })
      (λ d.
        k (record d {
          taken = concat d.taken c.taken;
          groups = (name, reversed d.taken) ∷ d.groups;
        }))

abbrev cursor : Option ℕ → String → Cursor
cursor before s = record { before = before; rest = s; taken = ""; groups = [] }

-- `re.match(r, s)`
unfoldable pub matches : Regex → String → Option Cursor
unfolding match_at many_of is_word
matches r s = match_at r (cursor none s) (λ d. some d)

search_from : Regex → Option ℕ → String → Option Cursor
search_from r before String.[] = match_at r (cursor before "") (λ d. some d)
search_from r before (String.◌∷◌ x s) =
    first_of (match_at r (cursor before (String.◌∷◌ x s)) (λ d. some d))
      (search_from r (some (code x)) s)

-- `re.search(r, s)`, as a test
unfoldable pub finds : Regex → String → Bool
unfolding search_from match_at many_of is_word
finds r s = is_some (search_from r none s)

-- the replacement of a match; a match of the empty text replaces nothing here, and no expression
-- of the provider that is substituted matches it
abbrev put : (Dict String → String) → Char → (rest : String) → (ℕ → String) → Option Cursor → String
put f x s go none = String.◌∷◌ x (go 0)
put f x s go (some c) = elim (text_length c.taken) [
  | zero ↦ String.◌∷◌ x (go 0)
  | suc n ↦ concat (f c.groups) (go n)
]

-- `skip` characters belong to a match that is replaced already
sub_from : Regex → (Dict String → String) → Option ℕ → (skip : ℕ) → String → String
sub_from r f before skip String.[] = ""
sub_from r f before (suc n) (String.◌∷◌ x s) = sub_from r f (some (code x)) n s
sub_from r f before zero (String.◌∷◌ x s) =
    put f x s (λ n. sub_from r f (some (code x)) n s)
      (match_at r (cursor before (String.◌∷◌ x s)) (λ d. some d))

-- `re.sub(r, f, s)`, the replacement from the groups of each match
unfoldable pub substitute : Regex → (Dict String → String) → String → String
unfolding sub_from match_at many_of is_word
substitute r f s = sub_from r f none 0 s

-- the parts of expressions
abbrev pub any_case : ℕ → ℕ → Bool
any_case c x = nat_eq (lower_code c) (lower_code x)

-- a literal text, and one that `re.IGNORECASE` or `(?i)` covers
unfoldable pub literal : String → Regex
literal String.[] = nothing
literal (String.◌∷◌ x s) = seq (one (nat_eq (code x))) (literal s)

unfoldable pub literal_any_case : String → Regex
literal_any_case String.[] = nothing
literal_any_case (String.◌∷◌ x s) = seq (one (any_case (code x))) (literal_any_case s)

-- `c+`
abbrev pub some_of : (ℕ → Bool) → Regex
some_of p = seq (one p) (many p)

abbrev pub not_space : ℕ → Bool
not_space c = not (is_space c)

abbrev pub all_of : List Regex → Regex
all_of [] = nothing
all_of (r ∷ []) = r
all_of (r ∷ q ∷ rs) = seq r (all_of (q ∷ rs))

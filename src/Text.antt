-- ===== src/Text.antt =====
-- The operations of Python's `str` that the provider uses, over native texts.
pub mod Partition
pub mod Number
pub mod Lines
pub mod Regex
pub mod Digits
use Prim.Native.String.{◌++◌ as append}
use Prim.Native.Nat.{◌/◌, ◌%◌}
use capi_provider_ssh.Base.{
  ℕ, zero, suc, ◌+◌, String, Char, code, Bool, true, false, ◌&&◌, ◌||◌, List, [], ◌∷◌, nat_eq, leb,
  ltb, map, if◌then◌else◌,
}

-- whether the character with this code occurs: `"/" in s`
unfoldable pub has_char : ℕ → String → Bool
has_char c String.[] = false
has_char c (String.◌∷◌ x s) = nat_eq (code x) c || has_char c s

pub record Parts : Type 0 where
  pub before : String
  pub found : Bool
  pub after : String

abbrev pub extend : Char → Parts → Parts
extend x p = record p { before = String.◌∷◌ x p.before }

-- `s.partition(c)`, and `s.split(c, 1)` where the character occurs
unfoldable pub partition : ℕ → String → Parts
partition c String.[] = record { before = ""; found = false; after = "" }
partition c (String.◌∷◌ x s) =
    if nat_eq (code x) c
    then record { before = ""; found = true; after = s }
    else extend x (partition c s)

-- `s.rpartition(c)`: the split at the last occurrence; with none, all of `s` is `after`
abbrev rpartition_step : ℕ → Char → String → Parts → Parts
rpartition_step c x s p =
    if p.found
    then extend x p
    else if nat_eq (code x) c
    then record { before = ""; found = true; after = s }
    else record { before = ""; found = false; after = String.◌∷◌ x s }

unfoldable pub rpartition : ℕ → String → Parts
rpartition c String.[] = record { before = ""; found = false; after = "" }
rpartition c (String.◌∷◌ x s) = rpartition_step c x s (rpartition c s)

-- `f"{a}{x}{b}"` for one character between two texts, and `f"{a}{b}"`
abbrev pub join : String → Char → String → String
join a x b = append a (String.◌∷◌ x b)

abbrev pub concat : String → String → String
concat = append

-- the code points of a text
abbrev pub codes : String → List ℕ
codes String.[] = []
codes (String.◌∷◌ c s) = code c ∷ codes s

abbrev pub lower_code : ℕ → ℕ
lower_code c = if leb b'A' c && leb c b'Z' then c + 32 else c

-- `s.lower()`, on ASCII letters
pub lower : List ℕ → List ℕ
lower = map lower_code

abbrev drop_end : ℕ → ℕ → List ℕ → List ℕ
drop_end c x [] = if nat_eq x c then [] else x ∷ []
drop_end c x (y ∷ ys) = x ∷ y ∷ ys

-- `s.rstrip(c)`
pub rstrip : ℕ → List ℕ → List ℕ
rstrip c [] = []
rstrip c (x ∷ xs) = drop_end c x (rstrip c xs)

nth_char : ℕ → String → Char
nth_char n String.[] = "0"
nth_char zero (String.◌∷◌ c s) = c
nth_char (suc n) (String.◌∷◌ c s) = nth_char n s

show_onto : ℕ → ℕ → String → String
show_onto zero n acc = acc
show_onto (suc fuel) n acc =
    let digits = String.◌∷◌ (nth_char (n % 10) "0123456789") acc in
    let rest = show_onto fuel (n / 10) digits in if ltb n 10 then digits else rest

-- `str(n)`; a number has fewer digits than the fuel
unfoldable pub show : ℕ → String
unfolding show_onto nth_char
show n = show_onto (suc n) n ""

-- ASCII white space, as `str.strip` takes it
unfoldable pub is_space : ℕ → Bool
is_space c = nat_eq c b' ' || (leb 9 c && leb c 13) || (leb 28 c && leb c 31)

abbrev pub strip_step : Char → String → String
strip_step x String.[] = if is_space (code x) then "" else String.◌∷◌ x ""
strip_step x (String.◌∷◌ y s) = String.◌∷◌ x (String.◌∷◌ y s)

unfoldable pub strip_right : String → String
strip_right String.[] = ""
strip_right (String.◌∷◌ x s) = strip_step x (strip_right s)

unfoldable pub strip_left : String → String
strip_left String.[] = ""
strip_left (String.◌∷◌ x s) = if is_space (code x) then strip_left s else String.◌∷◌ x s

-- `s.strip()`
unfoldable pub strip : String → String
unfolding strip_left strip_right is_space
strip s = strip_left (strip_right s)

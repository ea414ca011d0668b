-- ===== src/Text/Number.antt =====
-- Python's `int` of a text, on ASCII digits: white space around it, a sign, single underscores
-- between digits.
use capi_provider_ssh.Base.{
  ℕ, zero, suc, ◌+◌, ◌-◌, ◌*◌, String, code, Bool, false, ◌&&◌, ◌||◌, Option, none, some, leb, ltb,
  nat_eq, if◌then◌else◌,
}
use capi_provider_ssh.Text.{strip}

-- an integer: `negsuc n` is -(n + 1)
pub data ℤ : Type 0 where
  pos : ℕ → ℤ
  negsuc : ℕ → ℤ

abbrev negated : ℕ → ℤ
negated zero = pos zero
negated (suc n) = negsuc n

-- `i == n`
abbrev pub int_is : ℕ → ℤ → Bool
int_is n (pos i) = nat_eq i n
int_is n (negsuc _) = false

-- `i > n`
abbrev pub exceeds : ℤ → ℕ → Bool
exceeds (pos i) n = ltb n i
exceeds (negsuc _) n = false

unfoldable pub is_digit : ℕ → Bool
is_digit c = leb b'0' c && leb c b'9'

-- the digits that are left, after a number and whether a digit came last
unfoldable pub int_digits : (so_far : ℕ) → (after_digit : Bool) → String → Option ℕ
int_digits so_far after_digit String.[] = if after_digit then some so_far else none
int_digits so_far after_digit (String.◌∷◌ x s) =
    let c = code x in
    let digit = is_digit c in
    let rest = int_digits (if digit then so_far * 10 + (c - b'0') else so_far) digit s in
    if digit || (nat_eq c b'_' && after_digit) then rest else none

abbrev signed : (ℕ → ℤ) → Option ℕ → Option ℤ
signed f none = none
signed f (some n) = some (f n)

unfoldable pub int_signed : String → Option ℤ
int_signed String.[] = none
int_signed (String.◌∷◌ x s) =
    if nat_eq (code x) b'-'
    then signed negated (int_digits 0 false s)
    else if nat_eq (code x) b'+'
    then signed pos (int_digits 0 false s)
    else signed pos (int_digits 0 false (String.◌∷◌ x s))

-- `int(s)`; `none` is the ValueError
unfoldable pub parse_int : String → Option ℤ
unfolding int_signed int_digits is_digit
parse_int s = int_signed (strip s)

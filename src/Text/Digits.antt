-- ===== src/Text/Digits.antt =====
-- `int(str(n))` is n.
use Prim.Native.Nat.{◌/◌, ◌%◌}
use capi_provider_ssh.Base.{
  ℕ, zero, suc, ◌+◌, ◌-◌, ◌*◌, ◌<◌, ◌≤◌, String, Char, code, true, false, ◌≡◌, refl, ap, ◌∙◌, inl,
  inr, Bool-cases, some, truthy, nat_eq, ltb, arith,
}
use capi_provider_ssh.Text.{
  has_char, nth_char, show_onto, show, is_space, strip_left, strip_right, strip,
}
use capi_provider_ssh.Text.Number.{pos, is_digit, int_digits, int_signed, parse_int}

-- the digit of d
digit_code : (d : ℕ) → d < 10 → code (nth_char d "0123456789") ≡ d + 48
unfolding nth_char
digit_code zero h = refl
digit_code (suc zero) h = refl
digit_code (suc (suc zero)) h = refl
digit_code (suc (suc (suc zero))) h = refl
digit_code (suc (suc (suc (suc zero)))) h = refl
digit_code (suc (suc (suc (suc (suc zero))))) h = refl
digit_code (suc (suc (suc (suc (suc (suc zero)))))) h = refl
digit_code (suc (suc (suc (suc (suc (suc (suc zero))))))) h = refl
digit_code (suc (suc (suc (suc (suc (suc (suc (suc zero)))))))) h = refl
digit_code (suc (suc (suc (suc (suc (suc (suc (suc (suc zero))))))))) h = refl
digit_code (suc (suc (suc (suc (suc (suc (suc (suc (suc (suc d)))))))))) h = omega arith

-- Every character is a digit.
pub AllDigits : String → Type 0
AllDigits String.[] = Unit
AllDigits (String.◌∷◌ x s) = (48 ≤ code x) × (code x ≤ 57) × AllDigits s

-- the number that the digits give after m
number_from : ℕ → String → ℕ
number_from m String.[] = m
number_from m (String.◌∷◌ x s) = number_from (m * 10 + (code x - 48)) s

digit-lower : (n : ℕ) → 48 ≤ code (nth_char (n % 10) "0123456789")
digit-lower n = rw (digit_code (n % 10) (omega arith)) (omega arith)

digit-upper : (n : ℕ) → code (nth_char (n % 10) "0123456789") ≤ 57
digit-upper n = rw (digit_code (n % 10) (omega arith)) (omega arith)

show_onto-AllDigits : (fuel n : ℕ) (acc : String) → AllDigits acc → AllDigits (show_onto fuel n acc)
unfolding show_onto AllDigits
show_onto-AllDigits zero n acc h = h
show_onto-AllDigits (suc fuel) n acc h = elim (Bool-cases (ltb n 10)) [
  | inl small ↦ rw small (digit-lower n, digit-upper n, h)
  | inr large ↦ rw large (show_onto-AllDigits fuel (n / 10) _ (digit-lower n, digit-upper n, h))
]

show_onto-number :
    (fuel n : ℕ) (acc : String)
    → n < fuel
    → number_from 0 (show_onto fuel n acc) ≡ number_from n acc
unfolding show_onto number_from
show_onto-number zero n acc h = omega arith
show_onto-number (suc fuel) n acc h = elim (Bool-cases (ltb n 10)) [
  | inl small ↦
      rw small (ap (λ m. number_from m acc) (rw (digit_code (n % 10) (omega arith)) (ground arith)))
  | inr large ↦ rw large (
      show_onto-number fuel (n / 10) _ (ground arith)
      ∙ ap (λ m. number_from m acc) (rw (digit_code (n % 10) (omega arith)) (omega arith)))
]

-- texts of digits have no white space, no sign and no bar
strip_right-AllDigits : (s : String) → AllDigits s → strip_right s ≡ s
unfolding AllDigits strip_right is_space
strip_right-AllDigits String.[] h = refl
strip_right-AllDigits (String.◌∷◌ x String.[]) h = ground arith
strip_right-AllDigits (String.◌∷◌ x (String.◌∷◌ y s)) (a, b, h) =
    rw (strip_right-AllDigits (String.◌∷◌ y s) h) refl

strip_left-AllDigits : (s : String) → AllDigits s → strip_left s ≡ s
unfolding AllDigits strip_left is_space
strip_left-AllDigits String.[] h = refl
strip_left-AllDigits (String.◌∷◌ x s) h = ground arith

strip-AllDigits : (s : String) → AllDigits s → strip s ≡ s
unfolding strip
strip-AllDigits s h = rw (strip_right-AllDigits s h) (strip_left-AllDigits s h)

pub has_char-AllDigits : (s : String) → AllDigits s → has_char b'|' s ≡ false
unfolding AllDigits has_char
has_char-AllDigits String.[] h = refl
has_char-AllDigits (String.◌∷◌ x s) (a, b, h) = let rest = has_char-AllDigits s h in ground arith

is_digit-true : (x : Char) → 48 ≤ code x → code x ≤ 57 → is_digit (code x) ≡ true
unfolding is_digit
is_digit-true x a b = ground arith

int_digits-AllDigits :
    (m : ℕ) (s : String) → AllDigits s → int_digits m true s ≡ some (number_from m s)
unfolding AllDigits int_digits number_from
int_digits-AllDigits m String.[] h = refl
int_digits-AllDigits m (String.◌∷◌ x s) (a, b, h) =
    rw (is_digit-true x a b) (int_digits-AllDigits (m * 10 + (code x - 48)) s h)

int_signed-AllDigits :
    (x : Char) (s : String)
    → AllDigits (String.◌∷◌ x s)
    → int_signed (String.◌∷◌ x s) ≡ some (pos (number_from 0 (String.◌∷◌ x s)))
unfolding AllDigits int_signed int_digits number_from
int_signed-AllDigits x s (a, b, h) =
    rw (not_minus, not_plus, is_digit-true x a b, int_digits-AllDigits (0 * 10 + (code x - 48)) s h)
      refl
  where
    not_minus : nat_eq (code x) 45 ≡ false
    not_minus = ground arith

    not_plus : nat_eq (code x) 43 ≡ false
    not_plus = ground arith

parse_int-AllDigits :
    (s : String) → AllDigits s → truthy s ≡ true → parse_int s ≡ some (pos (number_from 0 s))
unfolding parse_int
parse_int-AllDigits String.[] h t = cc
parse_int-AllDigits (String.◌∷◌ x s) h t =
    rw (strip-AllDigits (String.◌∷◌ x s) h) (int_signed-AllDigits x s h)

show_onto-truthy :
    (fuel n : ℕ) (acc : String) → truthy acc ≡ true → truthy (show_onto fuel n acc) ≡ true
unfolding show_onto
show_onto-truthy zero n acc h = h
show_onto-truthy (suc fuel) n acc h = elim (Bool-cases (ltb n 10)) [
  | inl small ↦ rw small refl
  | inr large ↦ rw large (show_onto-truthy fuel (n / 10) _ refl)
]

show-truthy : (n : ℕ) → truthy (show n) ≡ true
unfolding show show_onto
show-truthy n = elim (Bool-cases (ltb n 10)) [
  | inl small ↦ rw small refl
  | inr large ↦ rw large (show_onto-truthy n (n / 10) _ refl)
]

pub show-AllDigits : (n : ℕ) → AllDigits (show n)
unfolding show AllDigits
show-AllDigits n = show_onto-AllDigits (suc n) n "" tt

shown : (n : ℕ) → number_from 0 (show n) ≡ n
unfolding show number_from
shown n = show_onto-number (suc n) n "" (omega arith)

-- The decimal digits of a number are read back as the number.
pub parse_int-show : (n : ℕ) → parse_int (show n) ≡ some (pos n)
parse_int-show n =
    parse_int-AllDigits (show n) (show-AllDigits n) (show-truthy n)
    ∙ ap (λ m. some (pos m)) (shown n)

-- ===== src/Diagnose/Bounds.antt =====
-- The length of an excerpt that goes to the status.
use text.Mathlib.TextLemmas.{nil-append, cons-append}
use capi_provider_ssh.Base.{
  Bool, ℕ, zero, suc, ◌+◌, ◌≤◌, String, Char, code, true, false, ◌≡◌, inl, inr, Bool-cases, leb,
  arith, truthy, if◌then◌else◌,
}
use capi_provider_ssh.Text.{concat, is_space, strip_step, strip_right}
use capi_provider_ssh.Text.Lines.{text_length, text_take}
use capi_provider_ssh.World.{SshResult}
use capi_provider_ssh.Diagnose.{max_excerpt, shortened, sanitize, excerpt_command_output}

text_length-concat : (s t : String) → text_length (concat s t) ≡ text_length s + text_length t
unfolding text_length
text_length-concat String.[] t = rw (nil-append t) (omega arith)
text_length-concat (String.◌∷◌ x s) t =
    rw (cons-append x s t) (let h = text_length-concat s t in omega arith)

text_length-take : (n : ℕ) (s : String) → text_length (text_take n s) ≤ n
unfolding text_length text_take
text_length-take zero s = omega arith
text_length-take (suc n) String.[] = omega arith
text_length-take (suc n) (String.◌∷◌ x s) = let h = text_length-take n s in omega arith

strip_step-le :
    (x : Char) (n : ℕ) (t : String) → text_length t ≤ n → text_length (strip_step x t) ≤ suc n
unfolding text_length
strip_step-le x n String.[] h = elim (Bool-cases (is_space (code x))) [
  | inl space ↦ rw space (omega arith)
  | inr other ↦ rw other (omega arith)
]
strip_step-le x n (String.◌∷◌ y s) h = omega arith

text_length-strip_right : (s : String) → text_length (strip_right s) ≤ text_length s
unfolding text_length strip_right
text_length-strip_right String.[] = omega arith
text_length-strip_right (String.◌∷◌ x s) =
    strip_step-le x (text_length s) (strip_right s) (text_length-strip_right s)

abbrev dots : String
dots = "..."

three_dots : text_length dots ≤ 3
unfolding text_length
three_dots = omega arith

empty-le : text_length "" ≤ 240
unfolding text_length
empty-le = omega arith

cut-le : (s : String) → text_length (concat (strip_right (text_take 237 s)) dots) ≤ 240
cut-le s =
    let total = text_length-concat (strip_right (text_take 237 s)) dots in
    let stripped = text_length-strip_right (text_take 237 s) in
    let taken = text_length-take 237 s in let three = three_dots in omega arith

shortened-le : (s : String) → text_length (shortened s) ≤ 240
unfolding shortened
shortened-le s = elim (Bool-cases (leb (text_length s) 240)) [
  | inl short ↦ rw short (ground arith)
  | inr long ↦ rw long (cut-le s)
]

-- An excerpt of a command's output that goes to the status has at most 240 characters.
pub excerpt_command_output-le :
    (result : SshResult) → text_length (excerpt_command_output result) ≤ max_excerpt
unfolding excerpt_command_output
excerpt_command_output-le result =
    choose (truthy (sanitize result.stderr)) (truthy (sanitize result.stdout))
  where
    choose :
        (a b : Bool)
        → text_length (
            if a
            then shortened (sanitize result.stderr)
            else if b
            then shortened (sanitize result.stdout)
            else "")
          ≤ 240
    choose true b = shortened-le _
    choose false true = shortened-le _
    choose false false = empty-le

-- ===== src/Lock/RoundTrip.antt =====
-- The value of the reconcile lock is read back as its holder and its expiry.
use text.Mathlib.TextLemmas.{nil-append, cons-append, append-nil}
use capi_provider_ssh.Base.{ℕ, String, Char, true, ◌≡◌, refl, some, truthy}
use capi_provider_ssh.Text.{join, show}
use capi_provider_ssh.Text.Number.{pos}
use capi_provider_ssh.Text.Partition.{join-rpartition}
use capi_provider_ssh.Text.Digits.{has_char-AllDigits, show-AllDigits, parse_int-show}
use capi_provider_ssh.Lock.{lock_value, parse_lock}

value-join : (holder : String) (n : ℕ) → lock_value holder n ≡ join holder "|" (show n)
unfolding lock_value
value-join holder n = rw (append-nil (show n), cons-append, nil-append) refl

join-truthy : (holder : String) (x : Char) (s : String) → truthy (join holder x s) ≡ true
join-truthy String.[] x s = rw nil-append refl
join-truthy (String.◌∷◌ y t) x s = rw cons-append refl

-- For a holder that is not empty, the value of the lock is read back as the holder and the expiry,
-- whatever characters the holder has.
pub parse_lock-lock_value :
    (holder : String) (expires_epoch : ℕ)
    → truthy holder ≡ true
    → parse_lock (some (lock_value holder expires_epoch)) ≡ some (holder, pos expires_epoch)
unfolding parse_lock
parse_lock-lock_value holder n h =
    rw
      (
        value-join holder n,
        join-truthy holder "|" (show n),
        join-rpartition b'|' holder "|" (show n) (has_char-AllDigits (show n) (show-AllDigits n))
            refl,
        h,
        parse_int-show n,
      )
      refl

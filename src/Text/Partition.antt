-- ===== src/Text/Partition.antt =====
-- The laws of `partition` and `rpartition`.

use text.Mathlib.TextLemmas.{nil-append, cons-append}
use capi_provider_ssh.Base.{
  ℕ, String, Char, code, true, false, ◌≡◌, refl, sym, ◌∙◌, ap, inl, inr, Bool-cases, nat_eq, arith,
}
use capi_provider_ssh.Text.{join, has_char, partition, rpartition}

-- A split text is put together again.
pub partition-join :
    (c : ℕ) (s : String)
    → (partition c s).found ≡ true
    → (x : Char) × (code x ≡ c) × (s ≡ join (partition c s).before x (partition c s).after)
unfolding partition
partition-join c String.[] h = cc
partition-join c (String.◌∷◌ x s) h = elim (Bool-cases (nat_eq (code x) c)) [
  | inl here ↦ (x, ground arith, rw here (sym (nil-append (String.◌∷◌ x s))))
  | inr later ↦ rw later (
      let (y, e, q) = partition-join c s (rw later at h) in
      (y, e, ap (λ t. String.◌∷◌ x t) q ∙ sym (cons-append x _ _)))
]

-- The split of a joined text, where the part before has no separator.
pub join-partition :
    (c : ℕ) (a : String) (x : Char) (b : String)
    → has_char c a ≡ false
    → code x ≡ c
    → partition c (join a x b) ≡ record { before = a; found = true; after = b }
unfolding partition has_char
join-partition c String.[] x b h e = rw nil-append (ground arith)
join-partition c (String.◌∷◌ y a) x b h e = rw cons-append (ground (arith, join-partition c a x b))

-- The part before the first separator has none.
pub has_char-partition : (c : ℕ) (s : String) → has_char c (partition c s).before ≡ false
unfolding partition has_char
has_char-partition c String.[] = refl
has_char-partition c (String.◌∷◌ x s) = elim (Bool-cases (nat_eq (code x) c)) [
  | inl here ↦ rw here refl
  | inr later ↦ rw later (rw later (has_char-partition c s))
]

rpartition_none :
    (c : ℕ) (s : String)
    → has_char c s ≡ false
    → rpartition c s ≡ record { before = ""; found = false; after = s }
unfolding rpartition has_char
rpartition_none c String.[] h = refl
rpartition_none c (String.◌∷◌ x s) h = rw (rpartition_none c s (ground arith)) (ground arith)

-- The split of a joined text at the last separator, where the part after has no separator.
pub join-rpartition :
    (c : ℕ) (a : String) (x : Char) (b : String)
    → has_char c b ≡ false
    → code x ≡ c
    → rpartition c (join a x b) ≡ record { before = a; found = true; after = b }
unfolding rpartition
join-rpartition c String.[] x b h e = rw (nil-append, rpartition_none c b h) (ground arith)
join-rpartition c (String.◌∷◌ y a) x b h e = rw (cons-append, join-rpartition c a x b h e) refl

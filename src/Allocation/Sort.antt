-- ===== src/Allocation/Sort.antt =====
-- The order of the candidates (the sort in _select_host).
use capi_provider_ssh.Base.{true, false, ◌≡◌, ◌⊎◌, inl, inr, List, [], ◌∷◌, All, arith, Bool-cases}
use capi_provider_ssh.Objects.{Host}
use capi_provider_ssh.Allocation.{candidate_le, insert_candidate, sort_candidates, is_ready}

-- `h` is an item of the list.
abbrev pub In : Host → List Host → Type 0
In h [] = ⊥
In h (x ∷ xs) = (h ≡ x) ⊎ In h xs

In-shift : (h c x : Host) (xs : List Host) → In h (c ∷ xs) → In h (c ∷ x ∷ xs)
In-shift h c x xs (inl e) = inl e
In-shift h c x xs (inr m) = inr (inr m)

In-or :
    (h c x : Host) (xs ys : List Host)
    → (In h ys → In h (c ∷ xs))
    → In h (x ∷ ys)
    → In h (c ∷ x ∷ xs)
In-or h c x xs ys f (inl e) = inr (inl e)
In-or h c x xs ys f (inr m) = In-shift h c x xs (f m)

In-insert : (h c : Host) (cs : List Host) → In h (insert_candidate c cs) → In h (c ∷ cs)
unfolding insert_candidate
In-insert h c [] m = m
In-insert h c (x ∷ xs) m = elim (Bool-cases (candidate_le c x)) [
  | inl before ↦ rw before at m
  | inr after ↦ In-or h c x xs (insert_candidate c xs) (In-insert h c xs) (rw after at m)
]

In-cons : (h x : Host) (xs ys : List Host) → (In h ys → In h xs) → In h (x ∷ ys) → In h (x ∷ xs)
In-cons h x xs ys f (inl e) = inl e
In-cons h x xs ys f (inr m) = inr (f m)

-- The sort adds no candidate.
pub In-sort : (h : Host) (hs : List Host) → In h (sort_candidates hs) → In h hs
unfolding sort_candidates
In-sort h [] m = m
In-sort h (x ∷ xs) m =
    In-cons h x xs (sort_candidates xs) (In-sort h xs) (In-insert h x (sort_candidates xs) m)

-- No host that is not ready stands before one that is.
abbrev pub ReadyFirst : List Host → Type 0
ReadyFirst [] = Unit
ReadyFirst (x ∷ xs) = (is_ready x ≡ false → All (λ h. is_ready h ≡ false) xs) × ReadyFirst xs

insert-unready :
    (c : Host) (cs : List Host)
    → is_ready c ≡ false
    → All (λ h. is_ready h ≡ false) cs
    → All (λ h. is_ready h ≡ false) (insert_candidate c cs)
unfolding insert_candidate
insert-unready c [] e h = (e, tt)
insert-unready c (x ∷ xs) e h = ground (arith, insert-unready c xs)

le_unready : (c x : Host) → candidate_le c x ≡ true → is_ready c ≡ false → is_ready x ≡ false
unfolding candidate_le
le_unready c x h e = ground arith

gt_unready : (c x : Host) → candidate_le c x ≡ false → is_ready x ≡ false → is_ready c ≡ false
unfolding candidate_le
gt_unready c x h e = ground arith

insert-ReadyFirst : (c : Host) (cs : List Host) → ReadyFirst cs → ReadyFirst (insert_candidate c cs)
unfolding insert_candidate
insert-ReadyFirst c [] h = ((λ _. tt), tt)
insert-ReadyFirst c (x ∷ xs) h = elim (Bool-cases (candidate_le c x)) [
  | inl before ↦ rw before ((λ e. let u = le_unready c x before e in (u, h.0 u)), h)
  | inr after ↦
      rw after
        ((λ e. insert-unready c xs (gt_unready c x after e) (h.0 e)), insert-ReadyFirst c xs h.1)
]

-- In the sorted candidates no host that is not ready stands before one that is ready.
pub sort_candidates-ReadyFirst : (hs : List Host) → ReadyFirst (sort_candidates hs)
unfolding sort_candidates
sort_candidates-ReadyFirst [] = tt
sort_candidates-ReadyFirst (x ∷ xs) =
    insert-ReadyFirst x (sort_candidates xs) (sort_candidates-ReadyFirst xs)

-- ===== src/Conditions/Merge.antt =====
-- What a merge of conditions keeps and what it changes (capi_provider_ssh/conditions.py).
use mathlib.Core.List.{append-nil, append_assoc}
use capi_provider_ssh.Base.{
  ℕ, String, true, false, ◌≡◌, refl, sym, ap, ◌∙◌, List, [], ◌∷◌, ◌++◌, Option, none, some, All,
  filter, truthy, ◌==◌, eq_iff, eq_refl, arith, if◌then◌else◌,
}
use capi_provider_ssh.Objects.{Condition}
use capi_provider_ssh.Conditions.{find, assign, index, stamp, merge_loop, merge_conditions}

pub find-assign :
    (k : String) (c : Condition) (cs : List Condition)
    → find k (assign c cs) ≡ (if c.type == k then some c else find k cs)
unfolding find assign
find-assign k c [] = refl
find-assign k c (x ∷ xs) =
    ground (arith, find-assign k c xs, eq_iff x.type c.type, eq_iff x.type k, eq_iff c.type k)

-- No two conditions have one type.
abbrev pub IsUnique : List Condition → Type 0
IsUnique [] = Unit
IsUnique (c ∷ cs) = (find c.type cs ≡ none) × IsUnique cs

pub assign-IsUnique : (c : Condition) (cs : List Condition) → IsUnique cs → IsUnique (assign c cs)
unfolding assign find
assign-IsUnique c [] h = (refl, tt)
assign-IsUnique c (x ∷ xs) h = ground (
  arith,
  assign-IsUnique c xs h.1,
  find-assign x.type c xs,
  eq_iff x.type c.type,
  eq_iff c.type x.type,
)

index-IsUnique : (so_far cs : List Condition) → IsUnique so_far → IsUnique (index so_far cs)
unfolding index
index-IsUnique so_far [] h = h
index-IsUnique so_far (c ∷ cs) h = index-IsUnique (assign c so_far) cs (assign-IsUnique c so_far h)

merge_loop-IsUnique :
    (g : Option ℕ) (now : String) (cs us : List Condition)
    → IsUnique cs
    → IsUnique (merge_loop g now cs us)
unfolding merge_loop
merge_loop-IsUnique g now cs [] h = h
merge_loop-IsUnique g now cs (u ∷ us) h =
    let c = stamp g now (find u.type cs) u in
    merge_loop-IsUnique g now (assign c cs) us (assign-IsUnique c cs h)

-- After a merge no two conditions have one type, whatever was there before.
pub merge_conditions-IsUnique :
    (existing updates : List Condition) (g : Option ℕ) (now : String)
    → IsUnique (merge_conditions existing updates g now)
unfolding merge_conditions
merge_conditions-IsUnique existing updates g now =
    merge_loop-IsUnique g now _ updates (index-IsUnique [] _ tt)

assign_new :
    (c : Condition) (cs : List Condition) → find c.type cs ≡ none → assign c cs ≡ cs ++ c ∷ []
unfolding assign find
assign_new c [] h = refl
assign_new c (x ∷ xs) h = ground (arith, assign_new c xs)

assign_same : (c : Condition) (cs : List Condition) → find c.type cs ≡ some c → assign c cs ≡ cs
unfolding assign find
assign_same c [] h = cc
assign_same c (x ∷ xs) h = ground (arith, assign_same c xs)

abbrev Fresh : List Condition → List Condition → Type 0
Fresh so_far cs = All (λ c. find c.type so_far ≡ none) cs

Fresh-assign :
    (c : Condition) (so_far cs : List Condition)
    → find c.type cs ≡ none
    → Fresh so_far cs
    → Fresh (assign c so_far) cs
unfolding find
Fresh-assign c so_far [] h f = tt
Fresh-assign c so_far (x ∷ xs) h f = ground (
  arith,
  find-assign x.type c so_far,
  Fresh-assign c so_far xs,
  eq_iff x.type c.type,
  eq_iff c.type x.type,
)

index_unique :
    (so_far cs : List Condition) → Fresh so_far cs → IsUnique cs → index so_far cs ≡ so_far ++ cs
unfolding index
index_unique so_far [] f u = sym (append-nil so_far)
index_unique so_far (c ∷ cs) f u =
    index_unique (assign c so_far) cs (Fresh-assign c so_far cs u.0 f.1) u.1
    ∙ rw (assign_new c so_far f.0) (append_assoc so_far (c ∷ []) cs)

-- Every condition has a type that is not the empty text.
abbrev pub HasTypes : List Condition → Type 0
HasTypes = All (λ c. truthy c.type ≡ true)

filter-HasTypes : (cs : List Condition) → HasTypes cs → filter (λ c. truthy c.type) cs ≡ cs
filter-HasTypes [] h = refl
filter-HasTypes (c ∷ cs) h = rw h.0 (ap (λ xs. c ∷ xs) (filter-HasTypes cs h.1))

Fresh-nil : (cs : List Condition) → Fresh [] cs
unfolding find
Fresh-nil [] = tt
Fresh-nil (c ∷ cs) = (refl, Fresh-nil cs)

-- On conditions that a merge has written, the dict comprehension changes nothing.
pub index_existing :
    (cs : List Condition)
    → HasTypes cs
    → IsUnique cs
    → index [] (filter (λ c. truthy c.type) cs) ≡ cs
index_existing cs h u = rw (filter-HasTypes cs h) (index_unique [] cs (Fresh-nil cs) u)

-- No update has the type `k`.
abbrev pub Avoids : String → List Condition → Type 0
Avoids k = All (λ u. (u.type == k) ≡ false)

find-merge_loop :
    (g : Option ℕ) (now : String) (k : String) (cs us : List Condition)
    → Avoids k us
    → find k (merge_loop g now cs us) ≡ find k cs
unfolding merge_loop stamp
find-merge_loop g now k cs [] h = refl
find-merge_loop g now k cs (u ∷ us) h =
    let c = stamp g now (find u.type cs) u in
    find-merge_loop g now k (assign c cs) us h.1 ∙ (rw (find-assign k c cs) (rw h.0 refl))

-- The existing conditions have distinct types that are not empty. Then a type that no update has
-- keeps its condition.
pub merge_conditions-others :
    (k : String) (existing updates : List Condition) (g : Option ℕ) (now : String)
    → HasTypes existing
    → IsUnique existing
    → Avoids k updates
    → find k (merge_conditions existing updates g now) ≡ find k existing
unfolding merge_conditions
merge_conditions-others k existing updates g now h u a =
    rw (index_existing existing h u) (find-merge_loop g now k existing updates a)

Avoids-of_find : (k : String) (us : List Condition) → find k us ≡ none → Avoids k us
unfolding find
Avoids-of_find k [] h = tt
Avoids-of_find k (u ∷ us) h = ground (arith, Avoids-of_find k us)

-- Each update stands in the result, stamped against the entry that its type had in `cs`.
abbrev pub Stamped :
    (g : Option ℕ) (now : String) (cs result : List Condition) → List Condition → Type 0
Stamped g now cs result = All (λ u. find u.type result ≡ some (stamp g now (find u.type cs) u))

Stamped-assign :
    (g : Option ℕ) (now : String) (c : Condition) (cs result us : List Condition)
    → Avoids c.type us
    → Stamped g now (assign c cs) result us
    → Stamped g now cs result us
Stamped-assign g now c cs result [] a h = tt
Stamped-assign g now c cs result (u ∷ us) a h = (
  h.0 ∙ rw (find-assign u.type c cs) (rw (other_type u.type c.type a.0) refl),
  Stamped-assign g now c cs result us a.1 h.1,
)
  where
    other_type : (s t : String) → (s == t) ≡ false → (t == s) ≡ false
    other_type s t h = ground (arith, eq_iff s t, eq_iff t s)

merge_loop-Stamped :
    (g : Option ℕ) (now : String) (cs us : List Condition)
    → IsUnique us
    → Stamped g now cs (merge_loop g now cs us) us
unfolding merge_loop
merge_loop-Stamped g now cs [] h = tt
merge_loop-Stamped g now cs (u ∷ us) h =
    let c = stamp g now (find u.type cs) u in
    let away = Avoids-of_find u.type us h.0 in
    (
      find-merge_loop g now u.type (assign c cs) us away
          ∙ rw (find-assign u.type c cs) (unfold stamp in rw (eq_refl u.type) refl),
      Stamped-assign g now c cs (merge_loop g now (assign c cs) us) us (unfold stamp in away)
          (merge_loop-Stamped g now (assign c cs) us h.1),
    )

-- The existing conditions have distinct types that are not empty, and the updates distinct types.
-- Then the merge has each update as the condition of its type, stamped against the condition that
-- the type had before.
pub merge_conditions-Stamped :
    (existing updates : List Condition) (g : Option ℕ) (now : String)
    → HasTypes existing
    → IsUnique existing
    → IsUnique updates
    → Stamped g now existing (merge_conditions existing updates g now) updates
unfolding merge_conditions
merge_conditions-Stamped existing updates g now h u d =
    rw (index_existing existing h u) (merge_loop-Stamped g now existing updates d)

-- A condition of type `k` with this status is there.
abbrev pub HasStatus : (k v : String) → List Condition → Type 0
HasStatus k v cs = (r : Condition) × (find k cs ≡ some r) × (r.status ≡ v)

HasStatus-Stamped :
    (g : Option ℕ) (now : String) (cs result us : List Condition)
    → Stamped g now cs result us
    → All (λ u. HasStatus u.type u.status result) us
unfolding stamp
HasStatus-Stamped g now cs result [] h = tt
HasStatus-Stamped g now cs result (u ∷ us) h =
    ((stamp g now (find u.type cs) u, h.0, refl), HasStatus-Stamped g now cs result us h.1)

-- With distinct types each update gives its status to the result, whatever was there.
pub merge_conditions-HasStatus :
    (existing updates : List Condition) (g : Option ℕ) (now : String)
    → IsUnique updates
    → All (λ u. HasStatus u.type u.status (merge_conditions existing updates g now)) updates
unfolding merge_conditions
merge_conditions-HasStatus existing updates g now d =
    HasStatus-Stamped g now _ _ updates (merge_loop-Stamped g now _ updates d)

-- The updates bring no transition time of their own.
abbrev pub Untimed : List Condition → Type 0
Untimed = All (λ u. u.last_transition_time ≡ none)

restamp :
    (g : Option ℕ) (now later : String) (previous : Option Condition) (u : Condition)
    → truthy now ≡ true
    → u.last_transition_time ≡ none
    → stamp g later (some (stamp g now previous u)) u ≡ stamp g now previous u
unfolding stamp
restamp g now later none u t e = ground (arith, eq_refl u.status)
restamp g now later (some p) u t e = ground (arith, eq_refl u.status)

merge_loop_again :
    (g : Option ℕ) (now later : String) (cs result us : List Condition)
    → truthy now ≡ true
    → Untimed us
    → Stamped g now cs result us
    → merge_loop g later result us ≡ result
unfolding merge_loop
merge_loop_again g now later cs result [] t n h = refl
merge_loop_again g now later cs result (u ∷ us) t n h =
    let c = stamp g now (find u.type cs) u in
    rw (h.0, restamp g now later (find u.type cs) u t n.0)
      (rw (assign_same c result (unfold stamp in h.0))
        (merge_loop_again g now later cs result us t n.1 h.1))

HasTypes-assign :
    (c : Condition) (cs : List Condition)
    → truthy c.type ≡ true
    → HasTypes cs
    → HasTypes (assign c cs)
unfolding assign
HasTypes-assign c [] t h = (t, tt)
HasTypes-assign c (x ∷ xs) t h = ground (arith, HasTypes-assign c xs)

merge_loop-HasTypes :
    (g : Option ℕ) (now : String) (cs us : List Condition)
    → HasTypes cs
    → HasTypes us
    → HasTypes (merge_loop g now cs us)
unfolding merge_loop stamp
merge_loop-HasTypes g now cs [] h t = h
merge_loop-HasTypes g now cs (u ∷ us) h t =
    let c = stamp g now (find u.type cs) u in
    merge_loop-HasTypes g now (assign c cs) us (HasTypes-assign c cs t.0 h) t.1

-- The existing conditions and the updates have distinct types that are not empty, and the updates
-- bring no transition time. Then merging the same updates a second time, at any later time, changes
-- nothing: no transition time moves.
pub merge_conditions-again :
    (existing updates : List Condition) (g : Option ℕ) (now later : String)
    → truthy now ≡ true
    → HasTypes existing
    → IsUnique existing
    → HasTypes updates
    → IsUnique updates
    → Untimed updates
    → merge_conditions (merge_conditions existing updates g now) updates g later
      ≡ merge_conditions existing updates g now
merge_conditions-again existing updates g now later t h u th d n =
    merge_conditions_eq (merge_conditions existing updates g now) later
      (unfold merge_conditions in
        rw (index_existing existing h u) (merge_loop-HasTypes g now existing updates h th))
      (merge_conditions-IsUnique existing updates g now)
    ∙ merge_loop_again g now later existing (merge_conditions existing updates g now) updates t n
        (merge_conditions-Stamped existing updates g now h u d)
  where
    merge_conditions_eq :
        (cs : List Condition) (at : String)
        → HasTypes cs
        → IsUnique cs
        → merge_conditions cs updates g at ≡ merge_loop g at cs updates
    merge_conditions_eq cs at h u = unfold merge_conditions in rw (index_existing cs h u) refl

-- One update has the status that the existing condition of its type has, and that condition has a
-- transition time. Then the merge keeps the transition time, and the status, the reason and the
-- message are the update's. The existing conditions have distinct types that are not empty.
pub merge_conditions-keeps_time :
    (existing : List Condition) (u c : Condition) (g : Option ℕ) (now t : String)
    → HasTypes existing
    → IsUnique existing
    → find u.type existing ≡ some c
    → c.status ≡ u.status
    → c.last_transition_time ≡ some t
    → truthy t ≡ true
    → (r : Condition) × (find u.type (merge_conditions existing (u ∷ []) g now) ≡ some r)
      × (r.last_transition_time ≡ some t)
      × (r.status ≡ u.status)
      × (r.reason ≡ u.reason)
      × (r.message ≡ u.message)
merge_conditions-keeps_time existing u c g now t h q e same timed nonempty = (
  stamp g now (some c) u,
  (merge_conditions-Stamped existing (u ∷ []) g now h q (unfold find in (refl, tt))).0 ∙ rw e refl,
  unfold stamp in ground (arith, eq_iff c.status u.status),
  unfold stamp in refl,
  unfold stamp in refl,
  unfold stamp in refl,
)

-- One update, with no transition time of its own, has another status than the existing condition of
-- its type. Then the condition has the time of the merge and the update's status. The existing
-- conditions have distinct types that are not empty.
pub merge_conditions-moves_time :
    (existing : List Condition) (u c : Condition) (g : Option ℕ) (now : String)
    → HasTypes existing
    → IsUnique existing
    → find u.type existing ≡ some c
    → (c.status == u.status) ≡ false
    → u.last_transition_time ≡ none
    → (r : Condition) × (find u.type (merge_conditions existing (u ∷ []) g now) ≡ some r)
      × (r.last_transition_time ≡ some now)
      × (r.status ≡ u.status)
merge_conditions-moves_time existing u c g now h q e differs untimed = (
  stamp g now (some c) u,
  (merge_conditions-Stamped existing (u ∷ []) g now h q (unfold find in (refl, tt))).0 ∙ rw e refl,
  unfold stamp in ground arith,
  unfold stamp in refl,
)

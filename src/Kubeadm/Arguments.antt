-- ===== src/Kubeadm/Arguments.antt =====
-- What an argument is after it is set, in both formats of kubeadm.
use mathlib.Core.List.{append-nil}
use capi_provider_ssh.Base.{
  String, Bool, true, false, ◌≡◌, ◌≢◌, refl, ap, sym, ◌∙◌, inl, inr, Bool-cases, List, [], ◌∷◌,
  ◌++◌, Option, none, some, or_else, ◌==◌, eq_iff, eq_refl, if◌then◌else◌, Dict, subst, text_eq,
}
use capi_provider_ssh.Value.{
  Value, Values, Entries, Key, named, unnamed, null, str, seq_of, dict_of, nil, cons, end, entry,
  has_name, find, get_value, put, append_values, as_text, as_dict, as_list, boolean, integer,
  floating, other_value,
}
use capi_provider_ssh.World.{Outcome, ok, err, ok-injective, err-ne-ok}
use capi_provider_ssh.Fallible.{bind_ok, is_text, expect, check}
use capi_provider_ssh.Kubeadm.{
  v1beta3, v1beta4, name_among, is_owned, all_arguments, other_arguments, arguments, updated,
  desired_args, empty_args, set_kubeadm_args,
}

abbrev is_for : String → Value → Bool
is_for k v = elim (as_dict v) [ none ↦ false | some es ↦ is_text (get_value es "name") k ]

abbrev value_of : Value → Value
value_of v = elim (as_dict v) [ none ↦ null | some es ↦ get_value es "value" ]

-- the values that a list of arguments gives to a name
pub listed : Values → String → List Value
listed nil k = []
listed (cons v vs) k = let rest = listed vs k in if is_for k v then value_of v ∷ rest else rest

abbrev single : Option Value → List Value
single none = []
single (some v) = v ∷ []

-- the values that the arguments give to a name: a list may repeat it, and a mapping has it at most
-- once
unfoldable pub argument_values : Value → String → List Value
unfolding listed
argument_values (seq_of vs) k = listed vs k
argument_values (dict_of es) k = single (find es k)
argument_values _ k = []

find-put : (es : Entries) (k : String) (v : Value) → find (put es k v) k ≡ some v
unfolding find put
find-put end k v = rw (eq_refl k) refl
find-put (entry j w es) k v = elim (Bool-cases (has_name k j)) [
  | inl here ↦ rw here (rw here refl)
  | inr there ↦ rw there (rw there (find-put es k v))
]

other_name : (j k l : String) → k ≢ l → j == k ≡ true → j == l ≡ false
other_name j k l n e = elim (Bool-cases (j == l)) [
  | inl same ↦ absurd (n (sym ((eq_iff j k).0 e) ∙ (eq_iff j l).0 same))
  | inr other ↦ other
]

other_key : (j : Key) (k l : String) → k ≢ l → has_name k j ≡ true → has_name l j ≡ false
other_key (named j) k l n e = other_name j k l n e
other_key (unnamed j) k l n e = refl

find-put_other : (es : Entries) (k l : String) (v : Value) → k ≢ l → find (put es k v) l ≡ find es l
unfolding find put
find-put_other end k l v n = rw (other_name k k l n (eq_refl k)) refl
find-put_other (entry j w es) k l v n = elim (Bool-cases (has_name k j)) [
  | inl here ↦ rw here (rw (other_key j k l n here) refl)
  | inr there ↦ rw there (elim (Bool-cases (has_name l j)) [
    | inl found ↦ rw found refl
    | inr later ↦ rw later (find-put_other es k l v n)
  ])
]

listed-append :
    (xs ys : Values) (k : String) → listed (append_values xs ys) k ≡ listed xs k ++ listed ys k
unfolding listed append_values
listed-append nil ys k = refl
listed-append (cons x xs) ys k = elim (Bool-cases (is_for k x)) [
  | inl here ↦ rw here (ap (λ l. value_of x ∷ l) (listed-append xs ys k))
  | inr there ↦ rw there (listed-append xs ys k)
]

eq_sym : (a b : String) → (a == b) ≡ (b == a)
eq_sym a b = elim (Bool-cases (a == b)) [
  | inl same ↦ rw same (sym ((eq_iff b a).1 (sym ((eq_iff a b).0 same))))
  | inr other ↦ rw other (elim (Bool-cases (b == a)) [
    | inl same ↦ absurd (true_false ((eq_iff a b).1 (sym ((eq_iff b a).0 same))) other)
    | inr different ↦ sym different
  ])
]
  where
    true_false : {b : Bool} → b ≡ true → b ≡ false → ⊥
    true_false p q = cc

named_single :
    (key value : String) (o : Option String)
    → name_among ((key, value) ∷ []) o ≡ text_eq o (some key)
named_single key value none = refl
named_single key value (some n) = elim (Bool-cases (key == n)) [
  | inl same ↦ rw same (sym same ∙ eq_sym key n)
  | inr other ↦ rw other (sym other ∙ eq_sym key n)
]

module _ (key value : String) where
  abbrev desired : Dict String
  desired = (key, value) ∷ []

  owned-for : (v : Value) → is_owned desired v ≡ is_for key v
  owned-for (dict_of es) = named_single key value (as_text (get_value es "name"))
  owned-for null = refl
  owned-for (boolean b) = refl
  owned-for (integer n) = refl
  owned-for (floating t) = refl
  owned-for (other_value t) = refl
  owned-for (str t) = refl
  owned-for (seq_of vs) = refl

  listed-removed : (vs : Values) → listed (other_arguments desired vs) key ≡ []
  unfolding listed other_arguments
  listed-removed nil = refl
  listed-removed (cons v vs) = elim (Bool-cases (is_for key v)) [
    | inl own ↦ rw (owned-for v, own) (listed-removed vs)
    | inr other ↦ rw (owned-for v, other) (rw other (listed-removed vs))
  ]

  name_not_both :
      (k : String) (o : Option String)
      → key ≢ k
      → text_eq o (some key) ≡ true
      → text_eq o (some k) ≡ false
  name_not_both k none n h = refl
  name_not_both k (some t) n h = other_name t key k n h

  not_both : (k : String) (v : Value) → key ≢ k → is_for key v ≡ true → is_for k v ≡ false
  not_both k (dict_of es) n h = name_not_both k (as_text (get_value es "name")) n h
  not_both k null n h = refl
  not_both k (boolean b) n h = refl
  not_both k (integer i) n h = refl
  not_both k (floating t) n h = refl
  not_both k (other_value t) n h = refl
  not_both k (str t) n h = refl
  not_both k (seq_of vs) n h = refl

  listed-others :
      (vs : Values) (k : String) → key ≢ k → listed (other_arguments desired vs) k ≡ listed vs k
  unfolding listed other_arguments
  listed-others nil k n = refl
  listed-others (cons v vs) k n = elim (Bool-cases (is_for key v)) [
    | inl own ↦ rw (owned-for v, own) (rw (not_both k v n own) (listed-others vs k n))
    | inr other ↦
        rw (owned-for v, other)
          (elim (Bool-cases (is_for k v)) [
            | inl this ↦ rw this (ap (λ l. value_of v ∷ l) (listed-others vs k n))
            | inr no_match ↦ rw no_match (listed-others vs k n)
          ])
  ]

  -- the values of the names in the new arguments
  abbrev Set : (old new : Value) → Type 0
  Set old new =
      (argument_values new key ≡ str value ∷ [])
      × ((k : String) → key ≢ k → argument_values new k ≡ argument_values old k)

  set_list :
      (vs : Values)
      → Set (seq_of vs) (seq_of (append_values (other_arguments desired vs) (arguments desired)))
  unfolding argument_values listed arguments find
  set_list vs = (
    listed-append (other_arguments desired vs) (arguments desired) key
        ∙ rw (listed-removed vs, eq_refl key) refl,
    λ k n.
        listed-append (other_arguments desired vs) (arguments desired) k
        ∙ rw (other_name key key k n (eq_refl key), listed-others vs k n) (append-nil _),
  )

  set_dict : (es : Entries) → Set (dict_of es) (dict_of (updated es desired))
  unfolding argument_values updated
  set_dict es = (
    ap single (find-put es key (str value)),
    λ k n. ap single (find-put_other es key k (str value) n),
  )

as_list-seq_of :
    (old : Value) (vs : Values) (m : String) → expect (as_list old) m ≡ ok vs → seq_of vs ≡ old
as_list-seq_of (seq_of ws) vs m h = ap seq_of (sym (ok-injective h))
as_list-seq_of null vs m h = absurd (err-ne-ok h)
as_list-seq_of (boolean b) vs m h = absurd (err-ne-ok h)
as_list-seq_of (integer n) vs m h = absurd (err-ne-ok h)
as_list-seq_of (floating t) vs m h = absurd (err-ne-ok h)
as_list-seq_of (other_value t) vs m h = absurd (err-ne-ok h)
as_list-seq_of (str t) vs m h = absurd (err-ne-ok h)
as_list-seq_of (dict_of es) vs m h = absurd (err-ne-ok h)

as_dict-dict_of :
    (old : Value) (es : Entries) (m : String) → expect (as_dict old) m ≡ ok es → dict_of es ≡ old
as_dict-dict_of (dict_of fs) es m h = ap dict_of (sym (ok-injective h))
as_dict-dict_of null es m h = absurd (err-ne-ok h)
as_dict-dict_of (boolean b) es m h = absurd (err-ne-ok h)
as_dict-dict_of (integer n) es m h = absurd (err-ne-ok h)
as_dict-dict_of (floating t) es m h = absurd (err-ne-ok h)
as_dict-dict_of (other_value t) es m h = absurd (err-ne-ok h)
as_dict-dict_of (str t) es m h = absurd (err-ne-ok h)
as_dict-dict_of (seq_of vs) es m h = absurd (err-ne-ok h)

-- the new arguments, before they are stored
desired_args-Set :
    (key value : String) (version old new : Value) (field : String)
    → desired_args version old field (desired key value) ≡ ok new
    → Set key value old new
unfolding desired_args
desired_args-Set key value version old new field h = elim (Bool-cases (is_text version v1beta4)) [
  | inl four ↦
      let (vs, ev, h') = bind_ok (expect (as_list old) _) _ new (rw four at h) in
      let (_, _, h'') = bind_ok (check (all_arguments vs) _) _ new h' in
      subst (λ o. Set key value o new) (as_list-seq_of old vs _ ev)
        (subst (λ x. Set key value (seq_of vs) x) (ok-injective h'') (set_list key value vs))
  | inr not_four ↦ elim (Bool-cases (is_text version v1beta3)) [
    | inl three ↦
        let (es, ee, h') = bind_ok (expect (as_dict old) _) _ new (rw (not_four, three) at h) in
        subst (λ o. Set key value o new) (as_dict-dict_of old es _ ee)
          (subst (λ x. Set key value (dict_of es) x) (ok-injective h') (set_dict key value es))
    | inr neither ↦ absurd (err-ne-ok (rw (not_four, neither) at h))
  ]
]

abbrev fst_of : Entries × Bool → Outcome (Entries × Bool) → Entries
fst_of d (ok r) = r.0
fst_of d (err e) = d.0

absent_values :
    (version : Value) (o : Option Value) (k : String)
    → argument_values (or_else o (empty_args version)) k ≡ argument_values (or_else o null) k
unfolding argument_values listed find
absent_values version (some v) k = refl
absent_values version none k = elim (Bool-cases (is_text version v1beta4)) [
  | inl four ↦ rw four refl
  | inr other ↦ rw other refl
]

-- Where an argument is set in a kubeadm document, in the list of v1beta4 or the mapping of v1beta3,
-- it has the one value that was set, every other argument has the values that it had, in their
-- order, and the other fields are as before.
pub set_kubeadm_args-Set :
    (doc parent after : Entries) (field key value : String) (changed : Bool)
    → set_kubeadm_args doc parent field ((key, value) ∷ []) ≡ ok (after, changed)
    → (argument_values (get_value after field) key ≡ str value ∷ [])
      × ((k : String)
          → key ≢ k
          → argument_values (get_value after field) k ≡ argument_values (get_value parent field) k)
      × ((other : String) → field ≢ other → find after other ≡ find parent other)
unfolding set_kubeadm_args
set_kubeadm_args-Set doc parent after field key value changed h =
    let version = get_value doc "apiVersion" in
    let (args, ea, h') =
      bind_ok
        (desired_args version (or_else (find parent field) (empty_args version)) field
          ((key, value) ∷ []))
        _ (after, changed) h in
    let stored = ap (fst_of (after, changed)) h' in
    let there =
      ap (λ o. or_else o null)
        (ap (λ es. find es field) (sym stored) ∙ find-put parent field args) in
    let (own, others) = desired_args-Set key value version _ args field ea in
    (
      ap (λ v. argument_values v key) there ∙ own,
      λ k n.
          ap (λ v. argument_values v k) there
          ∙ others k n
          ∙ absent_values version (find parent field) k,
      λ other n. ap (λ es. find es other) (sym stored) ∙ find-put_other parent field other args n,
    )

-- ===== src/Value.antt =====
-- Values that yaml.safe_load, the Kubernetes API and json give to the provider: Python's None,
-- bool, int, float, str, list and dict, and the other types of YAML. Values are trees: a YAML alias
-- is a copy of what it names.
use capi_provider_ssh.Base.{
  ℕ, suc, String, Bool, true, false, not, ◌&&◌, ◌||◌, List, [], ◌∷◌, Option, none, some, or_else,
  truthy, nat_eq, ◌==◌, if◌then◌else◌,
}
use capi_provider_ssh.Text.{show}
use capi_provider_ssh.Text.Number.{ℤ, pos, negsuc}
use capi_provider_ssh.Shell.{text}

-- a key of a mapping: a text, or another scalar by its `repr`
pub data Key : Type 0 where
  named : String → Key
  unnamed : String → Key

mutual
  pub data Value : Type 0 where
    null : Value
    boolean : Bool → Value
    integer : ℤ → Value
    -- a float, a date, bytes and so on, by its `str`
    floating : String → Value
    other_value : String → Value
    str : String → Value
    seq_of : Values → Value
    dict_of : Entries → Value

  pub data Values : Type 0 where
    nil : Values
    cons : Value → Values → Values

  pub data Entries : Type 0 where
    end : Entries
    entry : Key → Value → Entries → Entries

abbrev pub has_name : String → Key → Bool
has_name k (named j) = j == k
has_name k (unnamed _) = false

abbrev pub same_key : Key → Key → Bool
same_key (named j) k = has_name j k
same_key (unnamed j) (named _) = false
same_key (unnamed j) (unnamed k) = j == k

-- `d.get(k)`, where a missing key is none
unfoldable pub find : Entries → String → Option Value
find end k = none
find (entry j v es) k = let rest = find es k in if has_name k j then some v else rest

-- `d.get(k)`
abbrev pub get_value : Entries → String → Value
get_value es k = or_else (find es k) null

-- `d[k] = v`: the key keeps its place, and a new one comes last
unfoldable pub put : Entries → String → Value → Entries
put end k v = entry (named k) v end
put (entry j w es) k v =
    let rest = put es k v in if has_name k j then entry j v es else entry j w rest

unfoldable pub append_values : Values → Values → Values
append_values nil ys = ys
append_values (cons x xs) ys = cons x (append_values xs ys)

pub entries_count : Entries → ℕ
entries_count end = 0
entries_count (entry k v es) = suc (entries_count es)

find_key : Entries → Key → Option Value
find_key end k = none
find_key (entry j v es) k = let rest = find_key es k in if same_key k j then some v else rest

int_eq : ℤ → ℤ → Bool
int_eq (pos m) (pos n) = nat_eq m n
int_eq (pos m) (negsuc n) = false
int_eq (negsuc m) (pos n) = false
int_eq (negsuc m) (negsuc n) = nat_eq m n

-- `a == b`; an int is not compared with a bool or a float, which the provider does not do
unfoldable mutual
  unfolding int_eq find_key entries_count

  pub value_eq : Value → Value → Bool
  value_eq null w = elim w [ null ↦ true | _ ↦ false ]
  value_eq (boolean a) w = elim w [ boolean b ↦ (if a then b else not b) | _ ↦ false ]
  value_eq (integer a) w = elim w [ integer b ↦ int_eq a b | _ ↦ false ]
  value_eq (floating a) w = elim w [ floating b ↦ a == b | _ ↦ false ]
  value_eq (other_value a) w = elim w [ other_value b ↦ a == b | _ ↦ false ]
  value_eq (str a) w = elim w [ str b ↦ a == b | _ ↦ false ]
  value_eq (seq_of xs) w = elim w [ seq_of ys ↦ values_eq xs ys | _ ↦ false ]
  value_eq (dict_of es) w = elim w [
    | dict_of fs ↦ nat_eq (entries_count es) (entries_count fs) && within es fs
    | _ ↦ false
  ]

  pub values_eq : Values → Values → Bool
  values_eq nil nil = true
  values_eq nil (cons _ _) = false
  values_eq (cons _ _) nil = false
  values_eq (cons x xs) (cons y ys) = value_eq x y && values_eq xs ys

  -- every key of the first has an equal value in the second
  pub within : Entries → Entries → Bool
  within end fs = true
  within (entry k v es) fs =
      elim (find_key fs k) [ none ↦ false | some w ↦ value_eq v w ] && within es fs

-- Python's truth of a value
abbrev pub is_truthy : Value → Bool
is_truthy null = false
is_truthy (boolean b) = b
is_truthy (integer (pos n)) = not (nat_eq n 0)
is_truthy (integer (negsuc n)) = true
is_truthy (floating s) = not (s == "0.0" || s == "-0.0")
is_truthy (other_value s) = truthy s
is_truthy (str s) = truthy s
is_truthy (seq_of nil) = false
is_truthy (seq_of (cons _ _)) = true
is_truthy (dict_of end) = false
is_truthy (dict_of (entry _ _ _)) = true

abbrev pub show_int : ℤ → String
show_int (pos n) = show n
show_int (negsuc n) = text ("-" ∷ show (suc n) ∷ [])

-- `isinstance(v, (str, int, float, bool))` with `str(v)`
abbrev pub scalar_text : Value → Option String
scalar_text (boolean true) = some "True"
scalar_text (boolean false) = some "False"
scalar_text (integer n) = some (show_int n)
scalar_text (floating s) = some s
scalar_text (str s) = some s
scalar_text null = none
scalar_text (other_value _) = none
scalar_text (seq_of _) = none
scalar_text (dict_of _) = none

-- `isinstance(v, str)` with the text
abbrev pub as_text : Value → Option String
as_text (str s) = some s
as_text null = none
as_text (boolean _) = none
as_text (integer _) = none
as_text (floating _) = none
as_text (other_value _) = none
as_text (seq_of _) = none
as_text (dict_of _) = none

abbrev pub as_dict : Value → Option Entries
as_dict (dict_of es) = some es
as_dict null = none
as_dict (boolean _) = none
as_dict (integer _) = none
as_dict (floating _) = none
as_dict (other_value _) = none
as_dict (str _) = none
as_dict (seq_of _) = none

abbrev pub as_list : Value → Option Values
as_list (seq_of xs) = some xs
as_list null = none
as_list (boolean _) = none
as_list (integer _) = none
as_list (floating _) = none
as_list (other_value _) = none
as_list (str _) = none
as_list (dict_of _) = none

abbrev pub is_null : Value → Bool
is_null null = true
is_null _ = false

pub texts_value : List String → Values
texts_value [] = nil
texts_value (s ∷ ss) = cons (str s) (texts_value ss)

-- what `yaml.safe_load` and `yaml.safe_load_all` give: the documents, a YAMLError with the line and
-- the column of its mark, or another exception
pub data Parsed (A : Type 0) : Type 0 where
  parsed : A → Parsed A
  yaml_error : Option (ℕ × ℕ) → Parsed A
  other_failure : Parsed A

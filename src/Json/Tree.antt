-- ===== src/Json/Tree.antt =====
-- A concrete type of JSON values, which shows that the assumptions of `Json` can be met and on
-- which the tests run.
use memguard_agent.Base.{
  ℕ, ◌≡◌, refl, ap, Bool, true, false, Option, none, some, List, [], ◌∷◌, if◌then◌else◌,
}
use memguard_agent.Json.{Json}
use memguard_agent.Text.{Text, text_eq}

mutual
  pub data Tree : Type 0 where
    text : Text → Tree
    number : ℕ → Tree
    array : Items → Tree
    object : Fields → Tree

  pub data Items : Type 0 where
    nil : Items
    cons : Tree → Items → Items

  pub data Fields : Type 0 where
    end : Fields
    field : Text → Tree → Fields → Fields

abbrev pub items_of : List Tree → Items
items_of [] = nil
items_of (t ∷ ts) = cons t (items_of ts)

abbrev pub list_of : Items → List Tree
list_of nil = []
list_of (cons t ts) = t ∷ list_of ts

abbrev pub get_field : Text → Fields → Option Tree
get_field j end = none
get_field j (field k x fs) = let rest = get_field j fs in if text_eq k j then some x else rest

abbrev pub get : Text → Tree → Option Tree
get j (object fs) = get_field j fs
get j (text s) = none
get j (number n) = none
get j (array ts) = none

abbrev pub as_str : Tree → Option Text
as_str (text s) = some s
as_str (number n) = none
as_str (array ts) = none
as_str (object fs) = none

abbrev pub as_u64 : Tree → Option ℕ
as_u64 (number n) = some n
as_u64 (text s) = none
as_u64 (array ts) = none
as_u64 (object fs) = none

abbrev pub as_array : Tree → Option (List Tree)
as_array (array ts) = some (list_of ts)
as_array (text s) = none
as_array (number n) = none
as_array (object fs) = none

abbrev pub is_object : Tree → Bool
is_object (object fs) = true
is_object (text s) = false
is_object (number n) = false
is_object (array ts) = false

-- The newest entry of a key stands in front and is the one that is read.
abbrev pub insert : Text → Tree → Tree → Tree
insert k x (object fs) = object (field k x fs)
insert k x (text s) = text s
insert k x (number n) = number n
insert k x (array ts) = array ts

list_of-items_of : (ts : List Tree) → list_of (items_of ts) ≡ ts
list_of-items_of [] = refl
list_of-items_of (t ∷ ts) = ap (◌∷◌ t) (list_of-items_of ts)

pub is_object-insert : (k : Text) (x v : Tree) → is_object (insert k x v) ≡ is_object v
is_object-insert k x (object fs) = refl
is_object-insert k x (text s) = refl
is_object-insert k x (number n) = refl
is_object-insert k x (array ts) = refl

pub get-insert :
    (j k : Text) (x v : Tree)
    → is_object v ≡ true
    → get j (insert k x v) ≡ (if text_eq k j then some x else get j v)
get-insert j k x (object fs) h = refl
get-insert j k x (text s) h = cc
get-insert j k x (number n) h = cc
get-insert j k x (array ts) h = cc

pub get_not_object : (k : Text) (v : Tree) → is_object v ≡ false → get k v ≡ none
get_not_object k (object fs) h = cc
get_not_object k (text s) h = refl
get_not_object k (number n) h = refl
get_not_object k (array ts) h = refl

pub as_array-array : (ts : List Tree) → as_array (array (items_of ts)) ≡ some ts
as_array-array ts = ap some (list_of-items_of ts)

abbrev pub tree_json : Json
tree_json = record {
  Value = Tree;
  get = get;
  as_str = as_str;
  as_u64 = as_u64;
  as_array = as_array;
  is_object = is_object;
  str = text;
  number = number;
  array = λ ts. array (items_of ts);
  empty = object end;
  insert = insert;
  is_object-empty = refl;
  is_object-insert = is_object-insert;
  get-empty = λ k. refl;
  get-insert = get-insert;
  get_not_object = get_not_object;
  as_str-str = λ s. refl;
  as_str-number = λ n. refl;
  as_u64-number = λ n h. refl;
  as_array-array = as_array-array;
}

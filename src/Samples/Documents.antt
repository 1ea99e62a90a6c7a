-- ===== src/Samples/Documents.antt =====
-- A small JSON library: a document is written as the steps that build it on a stack.
use azure_client_tools.Base.{
  ℕ, suc, Bool, true, false, List, [], ◌∷◌, Option, none, some, Text, text_eq, ℤ, pos, negsuc,
  if◌then◌else◌, ◌==◌,
}
use azure_client_tools.Json.{Json}

mutual
  pub data Value : Type 0 where
    null : Value
    text : Text → Value
    int : ℤ → Value
    bool : Bool → Value
    array : Items → Value
    object : Fields → Value

  pub data Items : Type 0 where
    nil : Items
    cons : Value → Items → Items

  pub data Fields : Type 0 where
    done : Fields
    field : Text → Value → Fields → Fields

abbrev pub is_null : Value → Bool
is_null null = true
is_null _ = false

abbrev pub is_string : Value → Bool
is_string (text s) = true
is_string _ = false

abbrev pub is_object : Value → Bool
is_object (object m) = true
is_object _ = false

abbrev pub is_array : Value → Bool
is_array (array xs) = true
is_array _ = false

abbrev pub is_bool : Value → Bool
is_bool (bool b) = true
is_bool _ = false

abbrev pub is_int : Value → Bool
is_int (int n) = true
is_int _ = false

abbrev pub as_text : Value → Option Text
as_text (text s) = some s
as_text _ = none

abbrev pub as_int : Value → Option ℤ
as_int (int n) = some n
as_int _ = none

abbrev pub as_bool : Value → Option Bool
as_bool (bool b) = some b
as_bool _ = none

abbrev pub value_at : Text → Fields → Value
value_at k done = null
value_at k (field j v m) = if text_eq k j then v else value_at k m

abbrev pub set_value : Text → Value → Fields → Fields
set_value k x done = field k x done
set_value k x (field j v m) = if text_eq k j then field j x m else field j v (set_value k x m)

abbrev pub names : Fields → List Text
names done = []
names (field k v m) = k ∷ names m

abbrev pub member : Value → Text → Option Value
member null k = some null
member (object m) k = some (value_at k m)
member _ k = none

abbrev pub with_member : Value → Text → Value → Value
with_member (object m) k v = object (set_value k v m)
with_member v k x = v

abbrev pub member_names : Value → Option (List Text)
member_names null = some []
member_names (object m) = some (names m)
member_names _ = none

abbrev pub items : List Value → Items
items [] = nil
items (v ∷ vs) = cons v (items vs)

abbrev pub list_of : Items → List Value
list_of nil = []
list_of (cons v vs) = v ∷ list_of vs

abbrev pub elements : Value → List Value
elements (array xs) = list_of xs
elements _ = []

-- Two numbers for each step, neither of them zero.
abbrev pub write_text : Text → Text → Text
write_text [] rest = 2 ∷ 1 ∷ rest
write_text (c ∷ cs) rest = write_text cs (3 ∷ suc c ∷ rest)

unfoldable mutual
  pub write : Value → Text → Text
  write null rest = 1 ∷ 1 ∷ rest
  write (text s) rest = write_text s rest
  write (int (pos n)) rest = 4 ∷ suc n ∷ rest
  write (int (negsuc n)) rest = 5 ∷ suc n ∷ rest
  write (bool true) rest = 6 ∷ 1 ∷ rest
  write (bool false) rest = 7 ∷ 1 ∷ rest
  write (array xs) rest = write_items xs rest
  write (object m) rest = write_fields m rest

  pub write_items : Items → Text → Text
  write_items nil rest = 8 ∷ 1 ∷ rest
  write_items (cons v vs) rest = write_items vs (write v (9 ∷ 1 ∷ rest))

  pub write_fields : Fields → Text → Text
  write_fields done rest = 10 ∷ 1 ∷ rest
  write_fields (field k v m) rest = write_fields m (write_text k (write v (11 ∷ 1 ∷ rest)))

abbrev pub put_char : ℕ → List Value → List Value
put_char n (text t ∷ s) = text (n ∷ t) ∷ s
put_char _ s = s

abbrev pub put_item : List Value → List Value
put_item (v ∷ array vs ∷ s) = array (cons v vs) ∷ s
put_item s = s

abbrev pub put_field : List Value → List Value
put_field (v ∷ text k ∷ object m ∷ s) = object (field k v m) ∷ s
put_field s = s

abbrev pub build : ℕ → ℕ → List Value → List Value
build step n s =
    if step == 1
    then null ∷ s
    else if step == 2
    then text [] ∷ s
    else if step == 3
    then put_char n s
    else if step == 4
    then int (pos n) ∷ s
    else if step == 5
    then int (negsuc n) ∷ s
    else if step == 6
    then bool true ∷ s
    else if step == 7
    then bool false ∷ s
    else if step == 8
    then array nil ∷ s
    else if step == 9
    then put_item s
    else if step == 10
    then object done ∷ s
    else if step == 11
    then put_field s
    else s

abbrev pub run : Text → List Value → List Value
run (step ∷ suc n ∷ rest) s = run rest (build step n s)
run _ s = s

abbrev pub top : List Value → Option Value
top [] = none
top (v ∷ s) = some v

abbrev pub json : Json
json = record {
  Value = Value;
  null = null;
  empty_object = object done;
  of_text = text;
  of_int = int;
  of_bool = bool;
  of_array = λ vs. array (items vs);
  is_null = is_null;
  is_string = is_string;
  is_object = is_object;
  is_array = is_array;
  is_bool = is_bool;
  is_int = is_int;
  as_text = as_text;
  as_int = as_int;
  as_bool = as_bool;
  member = member;
  with_member = with_member;
  member_names = member_names;
  elements = elements;
  to_styled_string = λ v. write v [];
  parse = λ s. top (run s []);
}

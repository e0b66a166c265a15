-- ===== src/Models/Tree.antt =====
-- A small JSON library that meets the laws, for examples: a value is a tree, a number is the text of
-- its sign and its size, and a decimal is its text.
use okx_cpp_api.Prelude.{
  zero, suc, ◌≡◌, refl, ap, ◌∙◌, Bool, true, false, Option, none, some, List, [], ◌∷◌,
  if◌then◌else◌, get_elem?, is_empty, Bytes, codes, bytes_eq,
}
use okx_cpp_api.Prelude.Int.{ℤ, pos, negsuc}
use okx_cpp_api.Result.{Result, ok, err, foreign, undefined}
use okx_cpp_api.Enums.{
  InstrumentType, spot, swap, futures, option, margin, DateAggrType, daily, monthly, EnumText,
}
use okx_cpp_api.Enums.Names.{find_name, named}
use okx_cpp_api.Models.Base.{ModelJson}
use okx_cpp_api.Models.Laws.{assigned, IsModelJson}

-- An array and an object are chains that end in `no_items` and `no_fields`.
pub data Tree : Type 0 where
  null : Tree
  text : Bytes → Tree
  no_items : Tree
  item : Tree → Tree → Tree
  no_fields : Tree
  field : Bytes → Tree → Tree → Tree

abbrev pub array_of : List Tree → Tree
array_of [] = no_items
array_of (x ∷ xs) = item x (array_of xs)

-- Assignments in their order: the first field of the chain is the first assignment.
abbrev pub object_of : List (Bytes × Tree) → Tree
object_of [] = no_fields
object_of ((k, v) ∷ fs) = field k v (object_of fs)

abbrev find_field : Tree → Bytes → Option Tree
find_field (field j v rest) k = elim (find_field rest k) [
  | none ↦ if bytes_eq j k then some v else none
  | some w ↦ some w
]
find_field _ k = none

abbrev values : Tree → List Tree
values (item x rest) = x ∷ values rest
values (field k v rest) = v ∷ values rest
values _ = []

abbrev is_object_tree : Tree → Bool
is_object_tree no_fields = true
is_object_tree (field k v rest) = true
is_object_tree _ = false

abbrev is_array_tree : Tree → Bool
is_array_tree no_items = true
is_array_tree (item x rest) = true
is_array_tree _ = false

abbrev text_or : Option Tree → Bytes → Result Bytes
text_or none d = ok d
text_or (some (text s)) d = ok s
text_or (some _) d = err (foreign [])

abbrev number_of : Option Tree → Result ℤ
number_of (some (text (zero ∷ n ∷ []))) = ok (pos n)
number_of (some (text (suc _ ∷ n ∷ []))) = ok (negsuc n)
number_of _ = err (foreign [])

abbrev named_or : {E : Type 0} → EnumText E → Option Tree → E → Result E
named_or names (some (text s)) d = elim (names.enum_cast s) [ none ↦ ok d | some e ↦ ok e ]
named_or names _ d = ok d

abbrev pub signed_text : ℤ → Bytes
signed_text (pos n) = 0 ∷ n ∷ []
signed_text (negsuc n) = 1 ∷ n ∷ []

abbrev type_name : InstrumentType → Bytes
type_name spot = codes "SPOT"
type_name swap = codes "SWAP"
type_name futures = codes "FUTURES"
type_name option = codes "OPTION"
type_name margin = codes "MARGIN"

pub type_name_found :
    (e : InstrumentType)
    → find_name type_name (spot ∷ swap ∷ futures ∷ option ∷ margin ∷ []) (type_name e) ≡ some e
unfolding find_name
type_name_found spot = refl
type_name_found _ = refl

abbrev pub type_names : EnumText InstrumentType
type_names = named type_name (spot ∷ swap ∷ futures ∷ option ∷ margin ∷ []) type_name_found

abbrev aggregation_name : DateAggrType → Bytes
aggregation_name daily = codes "daily"
aggregation_name monthly = codes "monthly"

pub aggregation_name_found :
    (e : DateAggrType)
    → find_name aggregation_name (daily ∷ monthly ∷ []) (aggregation_name e) ≡ some e
unfolding find_name
aggregation_name_found daily = refl
aggregation_name_found _ = refl

abbrev pub aggregation_names : EnumText DateAggrType
aggregation_names = named aggregation_name (daily ∷ monthly ∷ []) aggregation_name_found

abbrev pub tree : ModelJson Tree Bytes
tree = record {
  json = record {
    parse = λ s. ok (text s);
    dump = λ j. [];
    is_utf8 = λ s. true;
    text = text;
    array = array_of;
    object = object_of;
    is_object = is_object_tree;
    contains = λ j k. elim (find_field j k) [ none ↦ false | some _ ↦ true ];
    element = λ j k. elim (find_field j k) [ none ↦ err undefined | some v ↦ ok v ];
    read_text = λ j k d. text_or (find_field j k) d;
    read_event = λ j k e. ok e;
  };
  decimal = record { nought = []; of_text = λ s. some s };
  find = find_field;
  at = λ j i. elim (get_elem? (values j) i) [ none ↦ err (foreign []) | some v ↦ ok v ];
  items = values;
  empty = λ j. is_empty (values j);
  is_null = λ j. elim j [ null ↦ true | _ ↦ false ];
  is_string = λ j. elim j [ text s ↦ true | _ ↦ false ];
  is_array = is_array_tree;
  get_text = λ j. text_or (some j) [];
  read_int64 = λ j k. number_of (find_field j k);
  read_int = λ j k. number_of (find_field j k);
  read_instrument_type = λ j k d. named_or type_names (find_field j k) d;
  read_option_type = λ j k d. ok d;
  read_contract_type = λ j k d. ok d;
  read_futures_alias = λ j k d. ok d;
  read_instrument_status = λ j k d. ok d;
  read_margin_mode = λ j k d. ok d;
  read_order_type = λ j k d. ok d;
  read_side = λ j k d. ok d;
  read_order_state = λ j k d. ok d;
  read_sett_state = λ j k d. ok d;
  read_date_aggr_type = λ j k d. named_or aggregation_names (find_field j k) d;
  position_side_cast = λ s. none;
  stoll = λ s. number_of (some (text s));
  string2bool = λ s. ok (bytes_eq s (codes "1"));
}

find_field-object_of :
    (k : Bytes) (fs : List (Bytes × Tree)) → find_field (object_of fs) k ≡ assigned k fs
find_field-object_of k [] = refl
find_field-object_of k ((j, v) ∷ fs) =
    ap
      (λ o. elim o as (λ x. Option Tree) [
        | none ↦ if bytes_eq j k then some v else none
        | some w ↦ some w
      ])
      (find_field-object_of k fs)

is_object-object_of : (fs : List (Bytes × Tree)) → is_object_tree (object_of fs) ≡ true
is_object-object_of [] = refl
is_object-object_of (f ∷ fs) = refl

is_array-array_of : (js : List Tree) → is_array_tree (array_of js) ≡ true
is_array-array_of [] = refl
is_array-array_of (j ∷ js) = refl

values-array_of : (js : List Tree) → values (array_of js) ≡ js
values-array_of [] = refl
values-array_of (j ∷ js) = ap (◌∷◌ j) (values-array_of js)

number_of-signed_text : (n : ℤ) → number_of (some (text (signed_text n))) ≡ ok n
number_of-signed_text (pos n) = refl
number_of-signed_text (negsuc n) = refl

pub tree-IsModelJson : IsModelJson tree signed_text type_names aggregation_names
tree-IsModelJson = record {
  find-object = find_field-object_of;
  is_object-object = is_object-object_of;
  is_array-array = is_array-array_of;
  items-array = values-array_of;
  at-array = λ j js. refl;
  empty-array = λ j js. refl;
  read_text_of = λ j k s d e. ap (λ o. text_or o d) e;
  read_int64_of = λ j k n e. ap number_of e ∙ number_of-signed_text n;
  read_instrument_type_of =
      λ j k e d h. ap (λ o. named_or type_names o d) h ∙ rw (type_names.cast-name e, named_or);
  read_date_aggr_type_of = λ j k e d h.
      ap (λ o. named_or aggregation_names o d) h ∙ rw (aggregation_names.cast-name e, named_or);
}

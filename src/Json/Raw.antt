-- ===== src/Json/Raw.antt =====
-- JSON texts that have been read: json.RawMessage, and what encoding/json makes of one. Every value
-- stands with its text. A field of a struct takes each member whose name is the field's up to case,
-- in order; a member of another type is an error.
use copilot_sdkapi.Base.{
  String, Char, code, Bool, true, false, ◌&&◌, Option, none, some, List, [], ◌∷◌, eqb, leb,
  if◌then◌else◌, ◌==◌,
}
use copilot_sdkapi.Strings.{equal_fold}
use copilot_sdkapi.Json.{Value, Fields, Elements, no_fields, field, no_elements, element}

mutual
  pub data Raw : Type 0 where
    raw : (source : String) → Node → Raw

  pub data Node : Type 0 where
    object : Members → Node
    array : Items → Node
    text number : String → Node
    boolean : Bool → Node
    null : Node

  pub data Members : Type 0 where
    no_members : Members
    member : String → Raw → Members → Members

  pub data Items : Type 0 where
    no_items : Items
    item : Raw → Items → Items

abbrev pub source : Raw → String
source (raw s n) = s

abbrev pub node : Raw → Node
node (raw s n) = n

-- json.Unmarshal into `any`.
unfoldable mutual
  pub value_of : Raw → Value
  value_of (raw s n) = value_of_node n

  pub value_of_node : Node → Value
  value_of_node (object ms) = Value.object (fields_of ms)
  value_of_node (array is) = Value.array (elements_of is)
  value_of_node (text s) = Value.text s
  value_of_node (number s) = Value.number s
  value_of_node (boolean b) = Value.boolean b
  value_of_node null = Value.null

  pub fields_of : Members → Fields
  fields_of no_members = no_fields
  fields_of (member k r ms) = field k (value_of r) (fields_of ms)

  pub elements_of : Items → Elements
  elements_of no_items = no_elements
  elements_of (item r is) = element (value_of r) (elements_of is)

-- The text of a raw field; nil is empty.
abbrev pub raw_text : Option Raw → String
raw_text none = ""
raw_text (some r) = source r

-- json.Unmarshal into a struct: its members. null leaves the struct as it is.
unfoldable pub members : Raw → Option Members
members (raw s (object ms)) = some ms
members (raw s null) = some no_members
members _ = none

-- json.Unmarshal into a string or a bool, where null leaves it empty or false.
unfoldable pub as_text : Raw → Option String
as_text (raw s (text t)) = some t
as_text (raw s null) = some ""
as_text _ = none

unfoldable pub as_boolean : Raw → Option Bool
as_boolean (raw s (boolean b)) = some b
as_boolean (raw s null) = some false
as_boolean _ = none

-- json.Unmarshal into a map of raw values: the last member of a name counts.
unfoldable pub last_member : String → Members → Option Raw
last_member name no_members = none
last_member name (member k r ms) = elim (last_member name ms) [
  | some later ↦ some later
  | none ↦ if k == name then some r else none
]

abbrev pub has_members : Members → Bool
has_members no_members = false
has_members (member k r ms) = true

-- A field of type json.RawMessage.
unfoldable pub raw_field : String → Members → Option Raw
unfolding equal_fold
raw_field name no_members = none
raw_field name (member k r ms) = elim (raw_field name ms) [
  | some later ↦ some later
  | none ↦ if equal_fold k name then some r else none
]

-- A field of type `any`.
unfoldable pub any_field : String → Members → Value
unfolding raw_field value_of
any_field name ms = elim (raw_field name ms) [ none ↦ Value.null | some r ↦ value_of r ]

-- The nodes of the members that a field takes.
unfoldable pub taken : String → Members → List Node
unfolding equal_fold
taken name no_members = []
taken name (member k r ms) =
    let rest = taken name ms in if equal_fold k name then node r ∷ rest else rest

unfoldable pub texts_of : String → List Node → Option String
texts_of old [] = some old
texts_of old (text t ∷ ns) = texts_of t ns
texts_of old (null ∷ ns) = texts_of old ns
texts_of old (_ ∷ ns) = none

-- A field of type string.
unfoldable pub text_field : String → Members → Option String
unfolding taken texts_of
text_field name ms = texts_of "" (taken name ms)

unfoldable pub booleans_of : Option Bool → List Node → Option (Option Bool)
booleans_of old [] = some old
booleans_of old (boolean b ∷ ns) = booleans_of (some b) ns
booleans_of old (null ∷ ns) = booleans_of none ns
booleans_of old (_ ∷ ns) = none

-- A field of type *bool.
unfoldable pub boolean_field : String → Members → Option (Option Bool)
unfolding taken booleans_of
boolean_field name ms = booleans_of none (taken name ms)

abbrev is_digit : Char → Bool
is_digit c = leb 48 (code c) && leb (code c) 57

unfoldable pub are_digits : String → Bool
are_digits String.[] = true
are_digits (String.◌∷◌ c s) = is_digit c && are_digits s

-- A number without fraction and exponent; one that an int cannot hold is not told apart.
unfoldable pub is_integer : String → Bool
unfolding are_digits
is_integer String.[] = false
is_integer (String.◌∷◌ c s) = if eqb (code c) 45 then are_digits s else is_digit c && are_digits s

unfoldable pub integers_of : Option String → List Node → Option (Option String)
unfolding is_integer
integers_of old [] = some old
integers_of old (number n ∷ ns) =
    let rest = integers_of (some n) ns in if is_integer n then rest else none
integers_of old (null ∷ ns) = integers_of none ns
integers_of old (_ ∷ ns) = none

-- A field of type *int, as its digits.
unfoldable pub integer_field : String → Members → Option (Option String)
unfolding taken integers_of
integer_field name ms = integers_of none (taken name ms)

unfoldable pub maps_of : Option Fields → List Node → Option (Option Fields)
unfolding value_of
maps_of old [] = some old
maps_of old (object ms ∷ ns) = maps_of (some (fields_of ms)) ns
maps_of old (null ∷ ns) = maps_of none ns
maps_of old (_ ∷ ns) = none

-- A field of type map[string]any. Only the last of several members of its name is kept here.
unfoldable pub map_field : String → Members → Option (Option Fields)
unfolding taken maps_of
map_field name ms = maps_of none (taken name ms)

-- The members of two objects, in order.
unfoldable pub join_members : Members → Members → Members
join_members no_members ns = ns
join_members (member k r ms) ns = member k r (join_members ms ns)

unfoldable pub structs_of : Option Members → List Node → Option (Option Members)
unfolding join_members
structs_of old [] = some old
structs_of none (object ms ∷ ns) = structs_of (some ms) ns
structs_of (some old) (object ms ∷ ns) = structs_of (some (join_members old ms)) ns
structs_of old (null ∷ ns) = structs_of none ns
structs_of old (_ ∷ ns) = none

-- A field of a pointer to a struct: its members, and nil is `none`. A second object is read into
-- the struct that the first one has made.
unfoldable pub struct_field : String → Members → Option (Option Members)
unfolding taken structs_of
struct_field name ms = structs_of none (taken name ms)

-- The next field, unless one could not be decoded.
infixl 4 ◌>>=◌
abbrev pub ◌>>=◌ {ℓ κ} : {A : Type ℓ} → {B : Type κ} → Option A → (A → Option B) → Option B
none >>= next = none
some value >>= next = next value

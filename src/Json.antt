-- ===== src/Json.antt =====
-- Values of encoding/json, as Go's `any` holds them. Numbers keep their text.
pub mod Raw
use copilot_sdkapi.Base.{String, Bool, List, [], ◌∷◌}

mutual
  pub data Fields : Type 0 where
    no_fields : Fields
    field : String → Value → Fields → Fields

  pub data Elements : Type 0 where
    no_elements : Elements
    element : Value → Elements → Elements

  pub data Value : Type 0 where
    object : Fields → Value
    array : Elements → Value
    text number : String → Value
    boolean : Bool → Value
    null : Value

abbrev pub elements : Elements → List Value
elements no_elements = []
elements (element v vs) = v ∷ elements vs

abbrev pub fields : Fields → List (String × Value)
fields no_fields = []
fields (field k v fs) = (k, v) ∷ fields fs

-- ===== src/Payload.antt =====
-- The values of a response before they are written as JSON, and `sanitize_for_json`
-- (app/utils/common.py).
pub mod Sanitizing
use conversational_copil.Prelude.{
  String, Bool, true, false, not, Option, none, some, List, [], ◌∷◌, if◌then◌else◌, is_text, str_eq,
}

-- A float: finite, by its numeral, or one that JSON has no word for.
pub data Float : Type 0 where
  finite : String → Float
  nan : Float
  infinite : Float

-- A `Decimal` is given by the float that `float` makes of it, and an object of any other type, such as
-- a UUID or bytes, by its `repr`.
mutual
  pub data Value : Type 0 where
    null : Value
    boolean : Bool → Value
    integer : String → Value
    text : String → Value
    float : Float → Value
    decimal : Float → Value
    array : Items → Value
    tuple : Items → Value
    object : Fields → Value
    other : String → Value

  pub data Items : Type 0 where
    nil : Items
    cons : Value → Items → Items

  pub data Fields : Type 0 where
    end : Fields
    field : String → Value → Fields → Fields

-- a float that is not finite becomes `None`
abbrev clean_float : Float → Value
clean_float (finite s) = float (finite s)
clean_float nan = null
clean_float infinite = null

unfoldable mutual
  pub sanitize_for_json : Value → Value
  sanitize_for_json null = null
  sanitize_for_json (boolean b) = boolean b
  sanitize_for_json (integer n) = integer n
  sanitize_for_json (text s) = text s
  sanitize_for_json (float f) = clean_float f
  sanitize_for_json (decimal f) = float f
  sanitize_for_json (array xs) = array (sanitize_items xs)
  sanitize_for_json (tuple xs) = array (sanitize_items xs)
  sanitize_for_json (object fs) = object (sanitize_fields fs)
  sanitize_for_json (other r) = other r

  pub sanitize_items : Items → Items
  sanitize_items nil = nil
  sanitize_items (cons x xs) = cons (sanitize_for_json x) (sanitize_items xs)

  pub sanitize_fields : Fields → Fields
  sanitize_fields end = end
  sanitize_fields (field k x fs) = field k (sanitize_for_json x) (sanitize_fields fs)

-- `d.get(k)` and `d[k] = x` of a dictionary
unfoldable pub get_field : String → Fields → Option Value
get_field k end = none
get_field k (field j x fs) = let rest = get_field k fs in if str_eq k j then some x else rest

unfoldable pub set_field : String → Value → Fields → Fields
set_field k y end = field k y end
set_field k y (field j x fs) =
    let rest = set_field k y fs in if str_eq k j then field j y fs else field j x rest

unfoldable pub keys : Fields → List String
keys end = []
keys (field k x fs) = k ∷ keys fs

unfoldable pub texts : List String → Items
texts [] = nil
texts (s ∷ ss) = cons (text s) (texts ss)

-- the truth of what `d.get(k)` gives, where that is a list or missing
abbrev pub is_full : Option Value → Bool
is_full (some (array (cons x xs))) = true
is_full (some (tuple (cons x xs))) = true
is_full _ = false

abbrev pub is_the_text : String → Option Value → Bool
is_the_text t (some (text s)) = str_eq s t
is_the_text t _ = false

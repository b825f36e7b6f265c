-- ===== src/Codegen/JsValue.antt =====
-- The values that the generated checks of internal/codegen are applied to, and what the checks use
-- of the JavaScript engine. A value is a finite tree; a property of an object is an entry of it.
use tsgonest.Common.{
  ℕ, zero, suc, String, Bool, true, false, Option, none, some, ◌==◌, if◌then◌else◌, leb,
}
use tsgonest.Metadata.{Float64, ℤ, pos, negsuc, Value}

mutual
  pub data JsValue : Type 0 where
    undefined null : JsValue
    boolean : Bool → JsValue
    number : Float64 → JsValue
    bigint symbol text : String → JsValue
    function : String → JsValue
    array : JsItems → JsValue
    object : (made_by : String) → JsFields → JsValue

  pub data JsItems : Type 0 where
    no_item : JsItems
    item : JsValue → JsItems → JsItems

  pub data JsFields : Type 0 where
    no_field : JsFields
    field : String → JsValue → JsFields → JsFields

-- The operations of the engine that the model does not define: floating point numbers, regular
-- expressions, the length of a text in code units, classes and dates, and the properties of values
-- that are no plain objects.
pub record Host : Type 0 where
  pub is_finite : Float64 → Bool
  pub same_number : Float64 → Float64 → Bool
  pub at_least : JsValue → Float64 → Bool
  pub at_most : JsValue → Float64 → Bool
  pub above : JsValue → Float64 → Bool
  pub below : JsValue → Float64 → Bool
  pub units : String → ℕ
  pub test : (pattern flags : String) → JsValue → Bool
  pub instance_of : JsValue → String → Bool
  -- `!isNaN(v.getTime())`; `none` where there is no such method.
  pub valid_date : JsValue → Option Bool
  pub member : JsValue → String → JsValue
  pub member_at : JsValue → ℕ → JsValue
  pub has_member : JsValue → String → Bool
  pub length_of : JsValue → Option ℕ

unfoldable pub typeof : JsValue → String
typeof undefined = "undefined"
typeof null = "object"
typeof (boolean b) = "boolean"
typeof (number f) = "number"
typeof (bigint s) = "bigint"
typeof (symbol s) = "symbol"
typeof (text s) = "string"
typeof (function s) = "function"
typeof (array xs) = "object"
typeof (object c fs) = "object"

unfoldable pub is_undefined : JsValue → Bool
is_undefined undefined = true
is_undefined v = false

unfoldable pub is_null : JsValue → Bool
is_null null = true
is_null v = false

unfoldable pub is_array : JsValue → Bool
is_array (array xs) = true
is_array v = false

-- An entry of an object, or `undefined`.
unfoldable pub entry : String → JsFields → JsValue
entry key no_field = undefined
entry key (field name v more) = let rest = entry key more in if name == key then v else rest

unfoldable pub has_entry : String → JsFields → Bool
has_entry key no_field = false
has_entry key (field name v more) =
    let rest = has_entry key more in if name == key then true else rest

unfoldable pub count_items : JsItems → ℕ
count_items no_item = 0
count_items (item v more) = suc (count_items more)

unfoldable pub nth_item : JsItems → ℕ → JsValue
nth_item no_item i = undefined
nth_item (item v more) zero = v
nth_item (item v more) (suc i) = nth_item more i

-- `n ≥ m` for a length and an integer.
unfoldable pub reaches : ℕ → ℤ → Bool
reaches n (pos m) = leb m n
reaches n (negsuc m) = true

unfoldable pub within : ℕ → ℤ → Bool
within n (pos m) = leb n m
within n (negsuc m) = false

module _ (h : Host) where
  -- `v.key`; `none` is a TypeError.
  unfoldable pub get : JsValue → String → Option JsValue
  unfolding entry
  get undefined key = none
  get null key = none
  get (object c fs) key = some (entry key fs)
  get v key = some (h.member v key)

  -- `v[i]` at a literal index.
  unfoldable pub get_at : JsValue → ℕ → Option JsValue
  unfolding nth_item
  get_at undefined i = none
  get_at null i = none
  get_at (array xs) i = some (nth_item xs i)
  get_at v i = some (h.member_at v i)

  -- `key in v`, a TypeError where `v` is no object.
  unfoldable pub has_key : JsValue → String → Option Bool
  unfolding has_entry
  has_key (object c fs) key = some (has_entry key fs)
  has_key (array xs) key = some (h.has_member (array xs) key)
  has_key (function s) key = some (h.has_member (function s) key)
  has_key v key = none

  -- `v.length`, a number where there is one.
  unfoldable pub size : JsValue → Option (Option ℕ)
  unfolding count_items
  size undefined = none
  size null = none
  size (text s) = some (some (h.units s))
  size (array xs) = some (some (count_items xs))
  size v = some (h.length_of v)

  -- `v === literal`. The text that is written for `nil` is no JavaScript: `none`.
  unfoldable pub equals : JsValue → Value → Option Bool
  equals v Value.nil = none
  equals (text s) (Value.text t) = some (s == t)
  equals (number f) (Value.number g) = some (h.same_number f g)
  equals (boolean true) (Value.boolean b) = some b
  equals (boolean false) (Value.boolean b) = some (if b then false else true)
  equals v w = some false

-- ===== src/Domain/Json.antt =====
-- src/nexusflow/domain/json_compat.py: raw Python values, frozen JSON values, and the passage
-- between them.
pub mod RoundTrip
use nexusflow.Base.{ℕ, String, Bool, Result, ok, err, type_error, value_error, ◌>>=◌}

-- A Python int.
pub data ℤ : Type 0 where
  pos : ℕ → ℤ
  negsuc : ℕ → ℤ

-- A Python float; a finite one is known by its bit pattern.
pub data Float : Type 0 where
  finite : (bits : ℕ) → Float
  nan infinite : Float

-- A key of a Python mapping.
pub data Key : Type 0 where
  text : String → Key
  other_key : Key

-- What `freeze_json` and `thaw_json` distinguish by `isinstance`.
mutual
  pub data PyValue : Type 0 where
    none_value : PyValue
    bool_value : Bool → PyValue
    int_value : ℤ → PyValue
    float_value : Float → PyValue
    str_value : String → PyValue
    py_list : PyItems → PyValue
    py_tuple : PyItems → PyValue
    py_dict : PyFields → PyValue
    mapping_proxy : PyFields → PyValue
    other_value : PyValue

  pub data PyItems : Type 0 where
    no_items : PyItems
    item : PyValue → PyItems → PyItems

  pub data PyFields : Type 0 where
    no_fields : PyFields
    field : Key → PyValue → PyFields → PyFields

-- The type JsonValue: a tuple for an array, a MappingProxyType for an object.
mutual
  pub data JsonValue : Type 0 where
    null : JsonValue
    boolean : Bool → JsonValue
    integer : ℤ → JsonValue
    number : (bits : ℕ) → JsonValue
    string : String → JsonValue
    array : JsonArray → JsonValue
    object : JsonObject → JsonValue

  pub data JsonArray : Type 0 where
    nil : JsonArray
    cons : JsonValue → JsonArray → JsonArray

  pub data JsonObject : Type 0 where
    end : JsonObject
    entry : String → JsonValue → JsonObject → JsonObject

-- The branch of `freeze_json` on a float: NaN and the infinities are refused.
freeze_float : Float → Result JsonValue
freeze_float (finite bits) = ok (number bits)
freeze_float _ = err value_error

-- A key that is no str is refused, before its value is looked at.
freeze_entry : Key → Result JsonValue → Result JsonObject → Result JsonObject
freeze_entry (text k) v rest = do x ← v; xs ← rest; ok (entry k x xs)
freeze_entry other_key v rest = err type_error

freeze_item : Result JsonValue → Result JsonArray → Result JsonArray
freeze_item v rest = do x ← v; xs ← rest; ok (cons x xs)

freeze_array : Result JsonArray → Result JsonValue
freeze_array items = do xs ← items; ok (array xs)

freeze_object : Result JsonObject → Result JsonValue
freeze_object fields = do xs ← fields; ok (object xs)

unfoldable mutual
  unfolding freeze_float freeze_entry freeze_item freeze_array freeze_object

  pub freeze_json : PyValue → Result JsonValue
  freeze_json none_value = ok null
  freeze_json (bool_value b) = ok (boolean b)
  freeze_json (int_value z) = ok (integer z)
  freeze_json (float_value x) = freeze_float x
  freeze_json (str_value s) = ok (string s)
  freeze_json (py_list xs) = freeze_array (freeze_items xs)
  freeze_json (py_tuple xs) = freeze_array (freeze_items xs)
  freeze_json (py_dict fs) = freeze_object (freeze_fields fs)
  freeze_json (mapping_proxy fs) = freeze_object (freeze_fields fs)
  freeze_json other_value = err type_error

  pub freeze_items : PyItems → Result JsonArray
  freeze_items no_items = ok nil
  freeze_items (item x xs) = freeze_item (freeze_json x) (freeze_items xs)

  pub freeze_fields : PyFields → Result JsonObject
  freeze_fields no_fields = ok end
  freeze_fields (field k v fs) = freeze_entry k (freeze_json v) (freeze_fields fs)

-- `thaw_json` of a frozen value: its raising branches need a value outside the type JsonValue.
unfoldable mutual
  pub thaw_json : JsonValue → PyValue
  thaw_json null = none_value
  thaw_json (boolean b) = bool_value b
  thaw_json (integer z) = int_value z
  thaw_json (number bits) = float_value (finite bits)
  thaw_json (string s) = str_value s
  thaw_json (array xs) = py_list (thaw_items xs)
  thaw_json (object fs) = py_dict (thaw_fields fs)

  pub thaw_items : JsonArray → PyItems
  thaw_items nil = no_items
  thaw_items (cons x xs) = item (thaw_json x) (thaw_items xs)

  pub thaw_fields : JsonObject → PyFields
  thaw_fields end = no_fields
  thaw_fields (entry k v fs) = field (text k) (thaw_json v) (thaw_fields fs)

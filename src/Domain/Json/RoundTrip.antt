-- ===== src/Domain/Json/RoundTrip.antt =====
-- src/nexusflow/domain/json_compat.py: freezing after thawing, and thawing after freezing.
use nexusflow.Base.{◌≡◌, refl, ok}
use nexusflow.Domain.Json.{
  JsonValue, JsonArray, JsonObject, freeze_json, freeze_items, freeze_fields, thaw_json, thaw_items,
  thaw_fields, null, boolean, integer, number, string, array, object, nil, cons, end, entry,
}

mutual
  unfolding freeze_json thaw_json

  freeze-thaw : (j : JsonValue) → freeze_json (thaw_json j) ≡ ok j
  freeze-thaw null = refl
  freeze-thaw (boolean b) = refl
  freeze-thaw (integer z) = refl
  freeze-thaw (number bits) = refl
  freeze-thaw (string s) = refl
  freeze-thaw (array xs) = rw (freeze-thaw_items xs)
  freeze-thaw (object fs) = rw (freeze-thaw_fields fs)

  freeze-thaw_items : (xs : JsonArray) → freeze_items (thaw_items xs) ≡ ok xs
  freeze-thaw_items nil = refl
  freeze-thaw_items (cons x xs) = rw (freeze-thaw x, freeze-thaw_items xs)

  freeze-thaw_fields : (fs : JsonObject) → freeze_fields (thaw_fields fs) ≡ ok fs
  freeze-thaw_fields end = refl
  freeze-thaw_fields (entry k v fs) = rw (freeze-thaw v, freeze-thaw_fields fs)

-- `freeze_json` accepts the output of `thaw_json` on every frozen JSON value and rebuilds exactly the
-- value that was thawed.
pub freeze_json-thaw_json : (j : JsonValue) → freeze_json (thaw_json j) ≡ ok j
freeze_json-thaw_json j = freeze-thaw j

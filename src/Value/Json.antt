-- ===== src/Value/Json.antt =====
-- `json.dumps(v, allow_nan=False)` succeeds: no non-finite number and no object of another kind,
-- at any depth.
use polsia_build.Common.{Bool, false, true, ◌&&◌}
use polsia_build.Value.{
  Fields, Items, Value, arr, bool, cons, end, field, nil, nonfinite, null, num, obj, opaque, str,
}

unfoldable mutual
  pub is_json : Value → Bool
  is_json null = true
  is_json (bool _) = true
  is_json (num _) = true
  is_json (nonfinite _) = false
  is_json (str _) = true
  is_json (arr vs) = is_json_items vs
  is_json (obj d) = is_json_fields d
  is_json (opaque _) = false

  pub is_json_items : Items → Bool
  is_json_items nil = true
  is_json_items (cons v vs) = is_json v && is_json_items vs

  pub is_json_fields : Fields → Bool
  is_json_fields end = true
  is_json_fields (field _ v d) = is_json v && is_json_fields d

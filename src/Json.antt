-- ===== src/Json.antt =====
-- The JSON objects that the program keeps in columns and payloads, `map[string]any` in the source:
-- internal/api/vm_handlers.go, internal/api/helpers.go and internal/worker/worker.go. Numbers are
-- integers, since the program writes no others; an array is one of strings; `time` is a string that
-- is the RFC 3339 text of an instant, which only `syncDelete` of the worker reads.
pub mod Laws
use pve_manage.Prelude.{
  ℕ, ◌+◌, ◌*◌, ◌-◌, String, Bool, true, false, not, ◌&&◌, ◌||◌, Option, none, some, List, [], ◌∷◌,
  leb, ltb, ◌==◌, if◌then◌else◌, is_nil,
}
use pve_manage.Prelude.Int.{ℤ, pos, negsuc, eqb_ℤ, sub_ℕ}
use pve_manage.Text.{Text, text_eq, codes, to_lower, atoi}
use text.Mathlib.Text.{◌==◌ as key_eq}

pub data Value : Type 0 where
  null : Value
  bool : Bool → Value
  num : ℤ → Value
  str : Text → Value
  strs : List Text → Value
  time : ℕ → Value

abbrev pub Object : Type 0
Object = List (String × Value)

-- A column or payload: `none` is a text that `json.Unmarshal` refuses.
abbrev pub Column : Type 0
Column = Option Object

unfoldable pub get : String → Object → Option Value
get k [] = none
get k ((j, v) ∷ m) = if key_eq j k then some v else get k m

unfoldable pub put : String → Value → Object → Object
put k v [] = (k, v) ∷ []
put k v ((j, w) ∷ m) = if key_eq j k then (k, v) ∷ m else (j, w) ∷ put k v m

-- `delete(m, k)`
unfoldable pub delete_key : String → Object → Object
delete_key k [] = []
delete_key k ((j, v) ∷ m) = let rest = delete_key k m in if key_eq j k then rest else (j, v) ∷ rest

-- `m := map[string]any{}; _ = json.Unmarshal(raw, &m)`
abbrev pub or_empty : Column → Object
or_empty none = []
or_empty (some m) = m

-- `s, _ := m[k].(string)`
abbrev pub as_string : Option Value → Text
as_string (some (str s)) = s
as_string _ = []

abbrev pub or_fallback : Text → Text → Text
or_fallback [] fallback = fallback
or_fallback (c ∷ s) fallback = c ∷ s

-- `stringFrom` and the worker's `stringFromMap`.
abbrev pub string_from : Object → String → Text → Text
string_from m k fallback = or_fallback (as_string (get k m)) fallback

-- `stringFromMap` of the API.
abbrev pub string_from_map : Object → String → Text
string_from_map m k = as_string (get k m)

-- `intFromAny` after `json.Unmarshal`, which yields `float64` for every number.
abbrev pub int_or_zero : Option Value → ℤ
int_or_zero (some (num n)) = n
int_or_zero _ = pos 0

-- `intFromOrZero`
abbrev pub int_from_or_zero : Object → String → ℤ
int_from_or_zero m k = int_or_zero (get k m)

-- `intFrom` of the worker.
abbrev pub int_of : Option Value → ℤ
int_of (some (num n)) = n
int_of (some (str s)) = atoi s
int_of _ = pos 0

abbrev pub int_from : Object → String → ℤ
int_from m k = int_of (get k m)

-- `v == "1" || strings.EqualFold(v, "true") || strings.EqualFold(v, "yes")`
unfoldable pub truthy_string : Text → Bool
truthy_string s =
    text_eq s (codes "1")
    || text_eq (to_lower s) (codes "true")
    || text_eq (to_lower s) (codes "yes")

-- `truthy`, `boolFrom` and `boolFromMapAny`.
unfoldable pub truthy : Option Value → Bool
truthy (some (bool b)) = b
truthy (some (num n)) = not (eqb_ℤ n (pos 0))
truthy (some (str s)) = truthy_string s
truthy _ = false

abbrev pub bool_from : Object → String → Bool
bool_from m k = truthy (get k m)

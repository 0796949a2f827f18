-- ===== src/Json/Laws.antt =====
-- The laws of `get`, `put` and `delete_key`.
use pve_manage.Prelude.{String, ◌≡◌, refl, none, some, [], ◌∷◌, arith, if◌then◌else◌}
use pve_manage.Json.{Value, Object, get, put, delete_key}
use text.Mathlib.Text.{◌==◌ as key_eq}
use text.Mathlib.TextEquality.{eq_iff}

pub get-put :
    (k j : String) (v : Value) (m : Object)
    → get j (put k v m) ≡ (if key_eq k j then some v else get j m)
unfolding get put
get-put k j v [] = refl
get-put k j v ((i, w) ∷ m) = ground (arith, eq_iff k j, eq_iff i k, eq_iff i j, get-put k j v m)

pub get-delete_key :
    (k j : String) (m : Object) → get j (delete_key k m) ≡ (if key_eq k j then none else get j m)
unfolding get delete_key
get-delete_key k j [] = ground arith
get-delete_key k j ((i, w) ∷ m) =
    ground (arith, eq_iff k j, eq_iff i k, eq_iff i j, get-delete_key k j m)

pub ruleset object_laws = (get-put, get-delete_key)

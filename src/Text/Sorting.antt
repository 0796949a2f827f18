-- ===== src/Text/Sorting.antt =====
-- `sort.Strings`. The order of the bytes of UTF-8 is the order of the runes.
use pve_manage.Prelude.{Bool, true, List, [], ◌∷◌, ltb, ◌==◌, if◌then◌else◌}
use pve_manage.Text.Equality.{Text}

-- `s < t`
unfoldable pub text_ltb : Text → Text → Bool
text_ltb s [] = Bool.false
text_ltb [] (d ∷ t) = true
text_ltb (c ∷ s) (d ∷ t) = if c == d then text_ltb s t else ltb c d

unfoldable pub insert_text : Text → List Text → List Text
insert_text s [] = s ∷ []
insert_text s (t ∷ ts) =
    let rest = insert_text s ts in if text_ltb t s then t ∷ rest else s ∷ t ∷ ts

unfoldable pub sort_strings : List Text → List Text
sort_strings [] = []
sort_strings (s ∷ ss) = insert_text s (sort_strings ss)

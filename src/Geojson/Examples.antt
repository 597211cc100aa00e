-- ===== src/Geojson/Examples.antt =====
-- Tests of em_geojson.c, and the theorems about it, with an empty buffer, where every integer prints as
-- 7 and every double as 1.5.
use embedded_middle.Prelude.{
  ℕ, ◌≡◌, refl, arith, Option, none, some, List, [], ◌∷◌, ◌++◌, ℤ, pos, slice,
}
use embedded_middle.Geojson.{
  Buffer, codes, JsonElem, integers, strings, others, points, GjPoint, snprint_obj, snprint_elem,
  snprint_feature, print_elems, print_val, print, then_print, print_more, test_size, advance,
  checked, close_obj, snprintf, put, take, parse_point, from_bracket,
}
use embedded_middle.Geojson.Printers.{PrintsAt}
use embedded_middle.Geojson.Texts.{obj_text, feature_text, snprint_obj_lem, snprint_feature_lem}

abbrev seven : ℤ → List ℕ
seven i = codes "7"

abbrev one_half : ℕ → List ℕ
one_half x = codes "1.5"

abbrev empty : Buffer
empty i = 0

abbrev speed : JsonElem ℕ
speed = record { key = codes "v"; val = integers (pos 7) }

abbrev name : JsonElem ℕ
name = record { key = codes "n"; val = strings (codes "A") }

abbrev nested : JsonElem ℕ
nested = record { key = codes "o"; val = others }

-- The text at place 100, as far as the printer says that it goes.
abbrev text_at : Option ℕ × Buffer → Option (List ℕ)
text_at (none, b) = none
text_at (some n, b) = some (slice b 100 n)

two_elems :
    text_at (snprint_obj seven one_half (speed ∷ name ∷ []) empty 100 64)
    ≡ some (codes "{ \"v\": 7, \"n\": \"A\" }")
unfolding snprint_obj print_elems snprint_elem print_val then_print print_more test_size advance
    print checked close_obj snprintf put take
two_elems = refl

-- The text has 20 characters, and a buffer of 20 has no room for its end.
no_room : text_at (snprint_obj seven one_half (speed ∷ name ∷ []) empty 100 20) ≡ none
unfolding snprint_obj print_elems snprint_elem print_val then_print print_more test_size advance
    print checked close_obj snprintf put take
no_room = refl

-- An object without elements loses its opening brace.
no_elems : text_at (snprint_obj seven one_half [] empty 100 64) ≡ some (codes " }")
unfolding snprint_obj print_elems print checked close_obj snprintf put take
no_elems = refl

-- An element of another type succeeds, with as many characters as the key has left as they were.
not_printed :
    text_at (snprint_elem seven one_half nested (λ i. 88) 100 64)
    ≡ some (codes "\"o\": " ++ (0 ∷ codes "XXXX"))
unfolding snprint_elem print_val then_print print_more test_size advance print checked snprintf put
    take
not_printed = refl

-- Without a bracket NULL is scanned.
no_bracket : parse_point {D = ℕ} (λ text d. (pos 2, d.0, d.1)) (1, 2) (codes "{}") ≡ none
unfolding parse_point from_bracket
no_bracket = refl

snprint_obj_lem_example :
    PrintsAt
      (snprint_obj seven one_half (speed ∷ name ∷ []))
      (obj_text seven one_half speed (name ∷ []))
      empty
      100
      64
snprint_obj_lem_example =
    snprint_obj_lem seven one_half (λ i. omega arith) (λ x. omega arith) speed (name ∷ []) empty 100
      64 (tt, (tt, tt))

abbrev here : GjPoint ℕ
here = record { lon = 139; lat = 35 }

snprint_feature_lem_example :
    PrintsAt
      (snprint_feature seven one_half
        (record { geometry = points here; properties = some (speed ∷ []) }))
      (feature_text seven one_half here speed [])
      empty
      100
      200
snprint_feature_lem_example =
    snprint_feature_lem seven one_half (λ i. omega arith) (λ x. omega arith) here speed [] empty 100
      200 (tt, tt)

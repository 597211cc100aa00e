-- ===== src/Geojson.antt =====
-- src/em_geojson.c: JSON printed into a buffer of `len` characters. A printer takes the buffer, the place
-- of `dst` in it and `len`, and returns the number of characters printed, or `none` for -1, with the
-- buffer after it. `len` is not negative. What `%d` and `%lf` print is an argument: `show_int` and
-- `show_double`; a `double` is of the type `D`. A character is its code; 0 ends a string.
pub mod Printers
pub mod Texts
mod Examples
use Prim.Native.Char.{code}
use Prim.Native.String.{String}
use embedded_middle.Prelude.{
  ℕ, zero, suc, ◌+◌, ◌-◌, ◌==◌, ◌||◌, leb, if◌then◌else◌, Option, none, some, List, [], ◌∷◌, ◌++◌,
  ℤ, length, update,
}

abbrev pub Buffer : Type 0
Buffer = ℕ → ℕ

abbrev pub Printer : Type 0
Printer = Buffer → ℕ → ℕ → Option ℕ × Buffer

-- The codes of a text of the source.
abbrev pub codes : String → List ℕ
codes String.[] = []
codes (String.◌∷◌ c s) = code c ∷ codes s

-- A string with its end put at a place, and the first `n` characters of a string.
pub put : List ℕ → ℕ → Buffer → Buffer
put [] at buf = update buf at 0
put (c ∷ cs) at buf = put cs (at + 1) (update buf at c)

pub take : ℕ → List ℕ → List ℕ
take zero cs = []
take (suc n) [] = []
take (suc n) (c ∷ cs) = c ∷ take n cs

-- `snprintf(dst, len, …)` of a text: its whole length, and what fits of it in the buffer.
pub snprintf : List ℕ → Buffer → ℕ → ℕ → ℕ × Buffer
unfolding put take
snprintf text buf dst zero = (length text, buf)
snprintf text buf dst (suc n) = (length text, put (take n text) dst buf)

-- `if (size <= 0 || size >= len - offset) return -1`.
pub checked : ℕ → ℕ → Buffer → Option ℕ × Buffer
checked size len buf = if leb size 0 || leb len size then (none, buf) else (some size, buf)

-- A call of snprintf with that test.
pub print : List ℕ → Printer
unfolding snprintf checked
print text buf dst len = let (size, buf') = snprintf text buf dst len in checked size len buf'

-- `offset += size`, behind the test.
advance : ℕ → Option ℕ × Buffer → Option ℕ × Buffer
advance offset (none, buf) = (none, buf)
advance offset (some size, buf) = (some (offset + size), buf)

test_size : ℕ → ℕ → Option ℕ × Buffer → Option ℕ × Buffer
unfolding checked advance
test_size offset len (none, buf) = (none, buf)
test_size offset len (some size, buf) = advance offset (checked size len buf)

print_more : Printer → ℕ → ℕ → Option ℕ × Buffer → Option ℕ × Buffer
unfolding test_size
print_more second dst len (none, buf) = (none, buf)
print_more second dst len (some offset, buf) =
    test_size offset (len - offset) (second buf (dst + offset) (len - offset))

-- One printer after another: `size = …(dst + offset, len - offset, …)`, the test, and
-- `offset += size`. A call of snprintf is tested once in the source; here `print` has made the test.
pub then_print : Printer → Printer → Printer
unfolding print_more
then_print first second buf dst len = print_more second dst len (first buf dst len)

-- The type and the value of an `em_jelem_t`; `others` is EM_JSON_OBJ or an unknown type.
pub data JsonVal (D : Type 0) : Type 0 where
  integers : ℤ → JsonVal D
  floats : D → JsonVal D
  strings : List ℕ → JsonVal D
  others : JsonVal D

-- `em_jelem_t`.
pub record JsonElem (D : Type 0) : Type 0 where
  pub key : List ℕ
  pub val : JsonVal D

-- `em_gjpoint_t`, and an `em_gjgeometry_t`: a point, or a type that is not printed.
pub record GjPoint (D : Type 0) : Type 0 where
  pub lon : D
  pub lat : D

pub data GjGeometry (D : Type 0) : Type 0 where
  points : GjPoint D → GjGeometry D
  others : GjGeometry D

-- `em_gjfeature_t`; `none` is NULL. The elements of an `em_jobj_t` are a list.
pub record GjFeature (D : Type 0) : Type 0 where
  pub geometry : GjGeometry D
  pub properties : Option (List (JsonElem D))

abbrev pub quoted : List ℕ → List ℕ
quoted text = codes "\"" ++ text ++ codes "\""

abbrev pub key_text : List ℕ → List ℕ
key_text key = quoted key ++ codes ": "

-- `snprintf(dst + offset - 2, 3, " }")`: the last two characters are overwritten.
close_obj : ℕ → Option ℕ × Buffer → Option ℕ × Buffer
unfolding put
close_obj dst (none, buf) = (none, buf)
close_obj dst (some offset, buf) = (some offset, put (codes " }") (dst + offset - 2) buf)

module _ {D : Type 0} (show_int : ℤ → List ℕ) (show_double : D → List ℕ) where
  -- For another type nothing is printed, and `size` still has the length of the key.
  print_val : ℕ → JsonVal D → Printer
  unfolding print checked
  print_val key_size (integers i) buf dst len = print (show_int i) buf dst len
  print_val key_size (floats x) buf dst len = print (show_double x) buf dst len
  print_val key_size (strings text) buf dst len = print (quoted text) buf dst len
  print_val key_size others buf dst len = checked key_size len buf

  pub snprint_elem : JsonElem D → Printer
  unfolding print print_val then_print
  snprint_elem elem =
      then_print (print (key_text elem.key)) (print_val (length (key_text elem.key)) elem.val)

  -- The loop, behind what has been printed.
  print_elems : Printer → List (JsonElem D) → Printer
  unfolding print then_print snprint_elem
  print_elems before [] = before
  print_elems before (elem ∷ elems) =
      print_elems (then_print (then_print before (snprint_elem elem)) (print (codes ", "))) elems

  pub snprint_obj : List (JsonElem D) → Printer
  unfolding print print_elems close_obj
  snprint_obj elems buf dst len = close_obj dst (print_elems (print (codes "{ ")) elems buf dst len)

  abbrev pub point_text : GjPoint D → List ℕ
  point_text gp =
      codes "{ \"type\": \"Point\", \"coordinates\": ["
      ++ show_double gp.lon
      ++ codes ", "
      ++ show_double gp.lat
      ++ codes "] }"

  pub snprint_point : GjPoint D → Printer
  unfolding print
  snprint_point gp = print (point_text gp)

  -- An unknown type is an error.
  print_geometry_val : GjGeometry D → Printer
  unfolding snprint_point
  print_geometry_val (points gp) buf dst len = snprint_point gp buf dst len
  print_geometry_val others buf dst len = (none, buf)

  pub snprint_geometry : GjGeometry D → Printer
  unfolding print then_print print_geometry_val
  snprint_geometry geometry =
      then_print (print (codes "\"geometry\": ")) (print_geometry_val geometry)

  print_properties : Printer → Option (List (JsonElem D)) → Printer
  unfolding print then_print snprint_obj
  print_properties before none = before
  print_properties before (some elems) =
      then_print (then_print before (print (codes ", \"properties\": "))) (snprint_obj elems)

  pub snprint_feature : GjFeature D → Printer
  unfolding print then_print snprint_geometry print_properties
  snprint_feature gf =
      then_print
        (print_properties
          (then_print (print (codes "{ \"type\": \"Feature\", ")) (snprint_geometry gf.geometry))
          gf.properties)
        (print (codes " }"))

-- `strstr(src, "[")`: the rest of the text from the first bracket; `none` is NULL.
from_bracket : List ℕ → Option (List ℕ)
from_bracket [] = none
from_bracket (c ∷ cs) = if c == 0x5b then some (c ∷ cs) else from_bracket cs

-- `scan` is what sscanf makes of the text and the format: the number of values read, and the two
-- coordinates after it. `none` where NULL is scanned.
pub parse_point : {D : Type 0} → (List ℕ → D × D → ℤ × D × D) → D × D → List ℕ → Option (ℤ × D × D)
unfolding from_bracket
parse_point scan coordinates src = elim (from_bracket src) [
  | none ↦ none
  | some start ↦ some (scan start coordinates)
]

-- ===== src/Geojson/Texts.antt =====
-- The texts that em_json_snprint_obj and em_geojson_snprint_feature print.
use embedded_middle.Prelude.{
  ℕ, ◌+◌, ◌<◌, ◌≡◌, inl, inr, refl, sym, ap, ap₂, ◌∙◌, subst, arith, some, List, [], ◌∷◌, ◌++◌,
  append_assoc, length, length-append, length-slice, slice, slice-ext, ℤ,
}
use embedded_middle.Geojson.{
  Buffer, Printer, codes, put, print, then_print, close_obj, JsonVal, integers, floats, strings,
  others, JsonElem, GjPoint, points, quoted, key_text, point_text, print_val, snprint_elem,
  print_elems, snprint_obj, snprint_point, print_geometry_val, snprint_geometry, print_properties,
  snprint_feature,
}
use embedded_middle.Geojson.Printers.{
  Printed, PrintsAt, Prints, print-Prints, then_print-Prints, put-Printed, slice-append,
}

cons-inj : {x y : ℕ} {xs ys : List ℕ} → x ∷ xs ≡ y ∷ ys → (x ≡ y) × (xs ≡ ys)
cons-inj e = (cc e, cc e)

-- Lists that begin with lists of the same length.
front-eq : (xs ys us vs : List ℕ) → length xs ≡ length ys → xs ++ us ≡ ys ++ vs → xs ≡ ys
front-eq [] [] us vs h e = refl
front-eq [] (y ∷ ys) us vs h e = absurd (omega (arith, h))
front-eq (x ∷ xs) [] us vs h e = absurd (omega (arith, h))
front-eq (x ∷ xs) (y ∷ ys) us vs h e =
    let (head, tail) = cons-inj e in ap₂ ◌∷◌ head (front-eq xs ys us vs (omega (arith, h)) tail)

regroup : (t e c j : List ℕ) → ((t ++ e) ++ c) ++ j ≡ t ++ (e ++ (c ++ j))
regroup t e c j = simp append_assoc

closed-Printed :
    (buf b : Buffer) (dst : ℕ) (t : List ℕ)
    → Printed buf dst (t ++ codes ", ") b
    → Printed buf dst (t ++ codes " }") (put (codes " }") (dst + length t) b)
closed-Printed buf b dst t p =
    let q = put-Printed (codes " }") (dst + length t) b in
    let long : length (t ++ codes ", ") ≡ length t + 2 = length-append t (codes ", ") in
    let long' : length (t ++ codes " }") ≡ length t + 2 = length-append t (codes " }") in
    let front : slice b dst (length t) ≡ t =
      front-eq (slice b dst (length t)) t (slice b (dst + length t) 2) (codes ", ")
        (length-slice b dst (length t))
        (sym (ap (slice b dst) long ∙ slice-append b dst (length t) 2) ∙ p.here) in
    record {
      here =
          ap (slice (put (codes " }") (dst + length t) b) dst) long'
          ∙ slice-append (put (codes " }") (dst + length t) b) dst (length t) 2
          ∙ ap₂ ◌++◌
              (slice-ext (put (codes " }") (dst + length t) b) b dst (length t)
                  (λ k l u. q.frame k (inl u))
                ∙ front)
              q.here;
      ended =
          ap (put (codes " }") (dst + length t) b) {x = dst + length (t ++ codes " }")}
            {y = dst + length t + 2} (omega (arith, long'))
          ∙ q.ended;
      frame = λ i out.
          q.frame i (ground (arith, out, long')) ∙ p.frame i (ground (arith, out, long, long'));
    }

close_obj-Prints :
    (p : Printer) (t : List ℕ)
    → Prints p (t ++ codes ", ")
    → Prints (λ buf dst len. close_obj dst (p buf dst len)) (t ++ codes " }")
unfolding close_obj
close_obj-Prints p t h buf dst len =
    let long : length (t ++ codes ", ") ≡ length t + 2 = length-append t (codes ", ") in
    let long' : length (t ++ codes " }") ≡ length t + 2 = length-append t (codes " }") in
    elim (h buf dst len) [
      | inr (tight, (b, e, w)) ↦ inr (omega (arith, long, long'), (b, rw (e, close_obj) refl, w))
      | inl (fits, (b, e, printed)) ↦ inl (
        omega (arith, long, long'),
        (
          put (codes " }") (dst + length t) b,
          rw (e, close_obj)
              (ap₂ (λ n at. (some n, put (codes " }") at b)) (long ∙ sym long')
                (omega (arith, long))),
          closed-Printed buf b dst t printed,
        ),
      )
    ]

-- The value is of a type that is printed.
abbrev pub IsPlain : {D : Type 0} → JsonVal D → Type 0
IsPlain (integers i) = Unit
IsPlain (floats x) = Unit
IsPlain (strings text) = Unit
IsPlain others = ⊥

abbrev pub ArePlain : {D : Type 0} → List (JsonElem D) → Type 0
ArePlain [] = Unit
ArePlain (elem ∷ elems) = IsPlain elem.val × ArePlain elems

module _ {D : Type 0} (show_int : ℤ → List ℕ) (show_double : D → List ℕ) where
  abbrev pub val_text : JsonVal D → List ℕ
  val_text (integers i) = show_int i
  val_text (floats x) = show_double x
  val_text (strings text) = quoted text
  val_text others = []

  abbrev pub elem_text : JsonElem D → List ℕ
  elem_text elem = key_text elem.key ++ val_text elem.val

  -- The elements with commas between them.
  abbrev pub joined : JsonElem D → List (JsonElem D) → List ℕ
  joined elem [] = elem_text elem
  joined elem (next ∷ elems) = elem_text elem ++ (codes ", " ++ joined next elems)

  abbrev pub obj_text : JsonElem D → List (JsonElem D) → List ℕ
  obj_text elem elems = (codes "{ " ++ joined elem elems) ++ codes " }"

  abbrev pub geometry_text : GjPoint D → List ℕ
  geometry_text gp = codes "\"geometry\": " ++ point_text show_int show_double gp

  abbrev pub head_text : GjPoint D → List ℕ
  head_text gp = codes "{ \"type\": \"Feature\", " ++ geometry_text gp

  abbrev pub feature_text : GjPoint D → JsonElem D → List (JsonElem D) → List ℕ
  feature_text gp elem elems =
      ((head_text gp ++ codes ", \"properties\": ") ++ obj_text elem elems) ++ codes " }"

  abbrev loop_text : List ℕ → List (JsonElem D) → List ℕ
  loop_text t [] = t
  loop_text t (elem ∷ elems) = loop_text ((t ++ elem_text elem) ++ codes ", ") elems

  loop_text-joined :
      (t : List ℕ) (elem : JsonElem D) (elems : List (JsonElem D))
      → loop_text t (elem ∷ elems) ≡ (t ++ joined elem elems) ++ codes ", "
  loop_text-joined t elem [] = refl
  loop_text-joined t elem (next ∷ elems) =
      loop_text-joined ((t ++ elem_text elem) ++ codes ", ") next elems
      ∙ ap (λ x. x ++ codes ", ") (regroup t (elem_text elem) (codes ", ") (joined next elems))

module _ {D : Type 0} (show_int : ℤ → List ℕ) (show_double : D → List ℕ)
    (int_shown : (i : ℤ) → 0 < length (show_int i))
    (double_shown : (x : D) → 0 < length (show_double x)) where
  quoted-length : (text : List ℕ) → 0 < length (quoted text)
  quoted-length text = omega arith

  val-length : (val : JsonVal D) → IsPlain val → 0 < length (val_text show_int show_double val)
  val-length (integers i) h = int_shown i
  val-length (floats x) h = double_shown x
  val-length (strings text) h = quoted-length text
  val-length others h = absurd h

  val-Prints :
      (n : ℕ) (val : JsonVal D)
      → IsPlain val
      → Prints (print_val show_int show_double n val) (val_text show_int show_double val)
  unfolding print_val
  val-Prints n (integers i) h = print-Prints (show_int i) (int_shown i)
  val-Prints n (floats x) h = print-Prints (show_double x) (double_shown x)
  val-Prints n (strings text) h = print-Prints (quoted text) (quoted-length text)
  val-Prints n others h = absurd h

  elem-Prints :
      (elem : JsonElem D)
      → IsPlain elem.val
      → Prints (snprint_elem show_int show_double elem) (elem_text show_int show_double elem)
  unfolding snprint_elem
  elem-Prints elem h =
      then_print-Prints (print (key_text elem.key))
        (print_val show_int show_double (length (key_text elem.key)) elem.val) (key_text elem.key)
        (val_text show_int show_double elem.val) (print-Prints (key_text elem.key) (omega arith))
        (val-Prints (length (key_text elem.key)) elem.val h) (val-length elem.val h)

  loop-Prints :
      (elems : List (JsonElem D)) (p : Printer) (t : List ℕ)
      → ArePlain elems
      → Prints p t
      → Prints (print_elems show_int show_double p elems) (loop_text show_int show_double t elems)
  unfolding print_elems
  loop-Prints [] p t h hp = hp
  loop-Prints (elem ∷ elems) p t h hp =
      loop-Prints elems _ ((t ++ elem_text show_int show_double elem) ++ codes ", ") h.1 (
        then_print-Prints (then_print p (snprint_elem show_int show_double elem))
          (print (codes ", ")) (t ++ elem_text show_int show_double elem) (codes ", ")
          (then_print-Prints p (snprint_elem show_int show_double elem) t
            (elem_text show_int show_double elem) hp (elem-Prints elem h.0) (omega arith))
          (print-Prints (codes ", ") (omega arith)) (omega arith))

  -- em_json_snprint_obj prints an object with at least one element, of types that it knows, as the
  -- elements in braces and with commas between them, if that and its end fit in `len` characters;
  -- if they do not it returns -1. In both cases it writes nothing outside the buffer.
  pub snprint_obj_lem :
      (elem : JsonElem D) (elems : List (JsonElem D)) (buf : Buffer) (dst len : ℕ)
      → ArePlain (elem ∷ elems)
      → PrintsAt
          (snprint_obj show_int show_double (elem ∷ elems))
          (obj_text show_int show_double elem elems)
          buf
          dst
          len
  unfolding snprint_obj
  snprint_obj_lem elem elems buf dst len h =
      close_obj-Prints (print_elems show_int show_double (print (codes "{ ")) (elem ∷ elems))
        (codes "{ " ++ joined show_int show_double elem elems)
        (subst (Prints (print_elems show_int show_double (print (codes "{ ")) (elem ∷ elems)))
          (loop_text-joined show_int show_double (codes "{ ") elem elems)
          (loop-Prints (elem ∷ elems) (print (codes "{ ")) (codes "{ ") h
            (print-Prints (codes "{ ") (omega arith))))
        buf dst len

  point-length : (gp : GjPoint D) → 0 < length (point_text show_int show_double gp)
  point-length gp = omega arith

  geometry-Prints :
      (gp : GjPoint D)
      → Prints
          (snprint_geometry show_int show_double (points gp))
          (geometry_text show_int show_double gp)
  unfolding snprint_geometry print_geometry_val snprint_point
  geometry-Prints gp =
      then_print-Prints (print (codes "\"geometry\": "))
        (print_geometry_val show_int show_double (points gp)) (codes "\"geometry\": ")
        (point_text show_int show_double gp) (print-Prints (codes "\"geometry\": ") (omega arith))
        (print-Prints (point_text show_int show_double gp) (point-length gp)) (point-length gp)

  head-Prints :
      (gp : GjPoint D)
      → Prints
          (then_print
            (print (codes "{ \"type\": \"Feature\", "))
            (snprint_geometry show_int show_double (points gp)))
          (head_text show_int show_double gp)
  head-Prints gp =
      then_print-Prints (print (codes "{ \"type\": \"Feature\", "))
        (snprint_geometry show_int show_double (points gp)) (codes "{ \"type\": \"Feature\", ")
        (geometry_text show_int show_double gp)
        (print-Prints (codes "{ \"type\": \"Feature\", ") (omega arith)) (geometry-Prints gp)
        (omega arith)

  -- em_geojson_snprint_feature prints a point with properties, of which there is at least one and all of
  -- types that it knows, as a GeoJSON feature, if that and its end fit in `len` characters; if they
  -- do not it returns -1. In both cases it writes nothing outside the buffer.
  pub snprint_feature_lem :
      (gp : GjPoint D) (elem : JsonElem D) (elems : List (JsonElem D)) (buf : Buffer) (dst len : ℕ)
      → ArePlain (elem ∷ elems)
      → PrintsAt
          (snprint_feature show_int show_double
            (record { geometry = points gp; properties = some (elem ∷ elems) }))
          (feature_text show_int show_double gp elem elems)
          buf
          dst
          len
  unfolding snprint_feature print_properties
  snprint_feature_lem gp elem elems buf dst len h =
      then_print-Prints _ (print (codes " }"))
        ((head_text show_int show_double gp ++ codes ", \"properties\": ")
          ++ obj_text show_int show_double elem elems)
        (codes " }")
        (then_print-Prints _ (snprint_obj show_int show_double (elem ∷ elems))
          (head_text show_int show_double gp ++ codes ", \"properties\": ")
          (obj_text show_int show_double elem elems)
          (then_print-Prints _ (print (codes ", \"properties\": "))
            (head_text show_int show_double gp) (codes ", \"properties\": ") (head-Prints gp)
            (print-Prints (codes ", \"properties\": ") (omega arith)) (omega arith))
          (λ b d n. snprint_obj_lem elem elems b d n h) (omega arith))
        (print-Prints (codes " }") (omega arith)) (omega arith) buf dst len

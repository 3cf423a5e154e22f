-- ===== src/Json/Read/RoundTrip.antt =====
-- Documents, their text, and the reader.
use signal_call_tunnel.Base.{
  Option, ℕ, zero, suc, ◌*◌, ◌<◌, ◌≤◌, ◌≡◌, refl, true, false, [], ◌∷◌, ◌++◌, append_assoc,
  append-nil, length, length-append, length-decimal, decimal, none, some, Text, arith, subst, ap,
  ◌∙◌,
}
use signal_call_tunnel.Json.{
  quote, Json, null, bool, num, str, arr, obj, Items, nil, cons, Fields, end, field, render,
  render_items, render_fields, escape,
}
use signal_call_tunnel.Json.Read.{
  skip_blank, strip, expect, read_key, next_field, open_array, open_object, start_value, read_value,
  read_items, read_fields, read_json,
}
use signal_call_tunnel.Json.Read.Strings.{read_string-escape}
use signal_call_tunnel.Json.Read.Numbers.{NoDigit}
use signal_call_tunnel.Json.Read.Starts.{render-Begins, start_value-decimal, read_key-quote}

-- The reader gives the document back, with the text behind it, if it may make two calls for each
-- character.
ReadsBack : Json → Type 0
ReadsBack x =
    (rest : Text) (fuel : ℕ)
    → NoDigit rest
    → 2 * length (render x) ≤ fuel
    → read_value fuel (render x ++ rest) ≡ some (x, rest)

abbrev ItemsReadBack : Items → Type 0
ItemsReadBack nil = Unit
ItemsReadBack (cons x xs) =
    (rest : Text) (fuel : ℕ)
    → 2 * length (render_items (cons x xs)) < fuel
    → read_items fuel (render_items (cons x xs) ++ b']' ∷ rest) ≡ some (cons x xs, rest)

abbrev FieldsReadBack : Fields → Type 0
FieldsReadBack end = Unit
FieldsReadBack (field k v fs) =
    (rest : Text) (fuel : ℕ)
    → 2 * length (render_fields (field k v fs)) < fuel
    → read_fields fuel (render_fields (field k v fs) ++ b'}' ∷ rest) ≡ some (field k v fs, rest)

items-one : (x : Json) → ReadsBack x → ItemsReadBack (cons x nil)
unfolding ReadsBack read_items render skip_blank
items-one x h rest zero bound = absurd (omega arith)
items-one x h rest (suc fuel) bound = rw (h (b']' ∷ rest) fuel refl (omega arith))

items-more :
    (x y : Json) (ys : Items)
    → ReadsBack x
    → ItemsReadBack (cons y ys)
    → ItemsReadBack (cons x (cons y ys))
unfolding ReadsBack read_items render skip_blank
items-more x y ys h hs rest zero bound = absurd (omega arith)
items-more x y ys h hs rest (suc fuel) bound =
    let total = length-append (render x) (b',' ∷ render_items (cons y ys)) in
    rw (
      append_assoc (render x) (b',' ∷ render_items (cons y ys)) (b']' ∷ rest),
      h (b',' ∷ render_items (cons y ys) ++ b']' ∷ rest) fuel refl (omega (arith, total)),
      hs rest fuel (omega (arith, total)),
    )

read_fields-suc :
    (k : Text) (v : Json) (s t u : Text) (fuel : ℕ)
    → read_key s ≡ some (k, t)
    → read_value fuel t ≡ some (v, u)
    → read_fields (suc fuel) s ≡ next_field (read_fields fuel) k v (skip_blank u)
unfolding read_fields
read_fields-suc k v s t u fuel p q = rw (p, q)

-- The first field is read, whatever follows it.
fields-first :
    (k : Text) (v : Json) (u : Text) (fuel : ℕ)
    → ReadsBack v
    → NoDigit u
    → 2 * length (quote k ++ b':' ∷ render v) ≤ fuel
    → read_fields (suc fuel) (quote k ++ b':' ∷ render v ++ u)
      ≡ next_field (read_fields fuel) k v (skip_blank u)
unfolding ReadsBack
fields-first k v u fuel h e bound =
    let total = length-append (quote k) (b':' ∷ render v) in
    read_fields-suc k v (quote k ++ b':' ∷ render v ++ u) (render v ++ u) u fuel
      (ap read_key (append_assoc (quote k) (b':' ∷ render v) u) ∙ read_key-quote k (render v ++ u))
      (h u fuel e (omega (arith, total)))

fields-one : (k : Text) (v : Json) → ReadsBack v → FieldsReadBack (field k v end)
unfolding render_fields skip_blank
fields-one k v h rest zero bound = absurd (omega arith)
fields-one k v h rest (suc fuel) bound = fields-first k v (b'}' ∷ rest) fuel h refl (omega arith)

fields-more :
    (k k' : Text) (v v' : Json) (fs : Fields)
    → ReadsBack v
    → FieldsReadBack (field k' v' fs)
    → FieldsReadBack (field k v (field k' v' fs))
unfolding render_fields skip_blank
fields-more k k' v v' fs h hs rest zero bound = absurd (omega arith)
fields-more k k' v v' fs h hs rest (suc fuel) bound =
    let first = quote k ++ b':' ∷ render v in
    let others = render_fields (field k' v' fs) in
    let total = length-append first (b',' ∷ others) in
    ap (read_fields (suc fuel)) (append_assoc first (b',' ∷ others) (b'}' ∷ rest))
    ∙ fields-first k v (b',' ∷ others ++ b'}' ∷ rest) fuel h refl (omega (arith, total))
    ∙ rw (hs rest fuel (omega (arith, total))) refl

open_array-some :
    (more : Text → Option (Items × Text)) (s rest : Text) (xs : Items)
    → expect b']' s ≡ none
    → more s ≡ some (xs, rest)
    → open_array more s ≡ some (arr xs, rest)
unfolding open_array
open_array-some more s rest xs p q = rw (open_array, p, q)

open_object-some :
    (more : Text → Option (Fields × Text)) (s rest : Text) (fs : Fields)
    → expect b'}' s ≡ none
    → more s ≡ some (fs, rest)
    → open_object more s ≡ some (obj fs, rest)
unfolding open_object
open_object-some more s rest fs p q = rw (open_object, p, q)

not_closed :
    (x : Json) (xs : Items) (rest : Text) → expect b']' (render_items (cons x xs) ++ rest) ≡ none
unfolding render_items
not_closed x nil rest = (render-Begins x rest).1
not_closed x (cons y ys) rest =
    rw (append_assoc (render x) (b',' ∷ render_items (cons y ys)) rest)
      (render-Begins x (b',' ∷ render_items (cons y ys) ++ rest)).1

array-ReadsBack : (x : Json) (xs : Items) → ItemsReadBack (cons x xs) → ReadsBack (arr (cons x xs))
unfolding ReadsBack render read_value
array-ReadsBack x xs h rest zero e bound = absurd (omega arith)
array-ReadsBack x xs h rest (suc fuel) e bound =
    let total = length-append (render_items (cons x xs)) (b']' ∷ []) in
    rw (append_assoc (render_items (cons x xs)) (b']' ∷ []) rest) (
      open_array-some (read_items fuel) (render_items (cons x xs) ++ b']' ∷ rest) rest (cons x xs)
        (not_closed x xs (b']' ∷ rest)) (h rest fuel (omega (arith, total))))

not_closed_object :
    (k : Text) (v : Json) (fs : Fields) (rest : Text)
    → expect b'}' (render_fields (field k v fs) ++ rest) ≡ none
unfolding render_fields expect skip_blank strip
not_closed_object k v end rest = refl
not_closed_object k v (field k' v' fs) rest = refl

object-ReadsBack :
    (k : Text) (v : Json) (fs : Fields)
    → FieldsReadBack (field k v fs)
    → ReadsBack (obj (field k v fs))
unfolding ReadsBack render read_value
object-ReadsBack k v fs h rest zero e bound = absurd (omega arith)
object-ReadsBack k v fs h rest (suc fuel) e bound =
    let text = render_fields (field k v fs) in
    let total = length-append text (b'}' ∷ []) in
    rw (append_assoc text (b'}' ∷ []) rest) (
      open_object-some (read_fields fuel) (text ++ b'}' ∷ rest) rest (field k v fs)
        (not_closed_object k v fs (b'}' ∷ rest)) (h rest fuel (omega (arith, total))))

number-ReadsBack : (n : ℕ) → ReadsBack (num n)
unfolding ReadsBack render read_value
number-ReadsBack n rest zero e bound = absurd (omega (arith, length-decimal n))
number-ReadsBack n rest (suc fuel) e bound =
    let begins : skip_blank (decimal n ++ rest) ≡ decimal n ++ rest =
      (render-Begins (num n) rest).0 in
    rw begins (start_value-decimal (read_items fuel) (read_fields fuel) n rest e)

string-ReadsBack : (s : Text) → ReadsBack (str s)
unfolding ReadsBack render read_value start_value skip_blank
string-ReadsBack s rest zero e bound = absurd (omega arith)
string-ReadsBack s rest (suc fuel) e bound =
    rw (append_assoc (escape s) (b'"' ∷ []) rest, read_string-escape s rest)

mutual
  unfolding ReadsBack render read_value start_value skip_blank

  render-ReadsBack : (x : Json) → ReadsBack x
  render-ReadsBack null rest zero e bound = absurd (omega arith)
  render-ReadsBack null rest (suc fuel) e bound = refl
  render-ReadsBack (bool true) rest zero e bound = absurd (omega arith)
  render-ReadsBack (bool true) rest (suc fuel) e bound = refl
  render-ReadsBack (bool false) rest zero e bound = absurd (omega arith)
  render-ReadsBack (bool false) rest (suc fuel) e bound = refl
  render-ReadsBack (num n) rest fuel e bound = number-ReadsBack n rest fuel e bound
  render-ReadsBack (str s) rest fuel e bound = string-ReadsBack s rest fuel e bound
  render-ReadsBack (arr nil) rest zero e bound = absurd (omega arith)
  render-ReadsBack (arr nil) rest (suc fuel) e bound = refl
  render-ReadsBack (arr (cons x xs)) rest fuel e bound =
      array-ReadsBack x xs (items-ReadBack (cons x xs)) rest fuel e bound
  render-ReadsBack (obj end) rest zero e bound = absurd (omega arith)
  render-ReadsBack (obj end) rest (suc fuel) e bound = refl
  render-ReadsBack (obj (field k v fs)) rest fuel e bound =
      object-ReadsBack k v fs (fields-ReadBack (field k v fs)) rest fuel e bound

  items-ReadBack : (xs : Items) → ItemsReadBack xs
  items-ReadBack nil = tt
  items-ReadBack (cons x nil) = items-one x (render-ReadsBack x)
  items-ReadBack (cons x (cons y ys)) =
      items-more x y ys (render-ReadsBack x) (items-ReadBack (cons y ys))

  fields-ReadBack : (fs : Fields) → FieldsReadBack fs
  fields-ReadBack end = tt
  fields-ReadBack (field k v end) = fields-one k v (render-ReadsBack v)
  fields-ReadBack (field k v (field k' v' fs)) =
      fields-more k k' v v' fs (render-ReadsBack v) (fields-ReadBack (field k' v' fs))

render-alone :
    (x : Json) (fuel : ℕ) → 2 * length (render x) ≤ fuel → read_value fuel (render x) ≡ some (x, [])
unfolding ReadsBack
render-alone x fuel bound =
    let back : read_value fuel (render x ++ []) ≡ some (x, []) =
      render-ReadsBack x [] fuel tt bound in
    subst (λ t. read_value fuel t ≡ some (x, [])) (append-nil (render x)) back

-- Every document is read from its text.
pub read_json-render : (x : Json) → read_json (render x) ≡ some x
unfolding read_json skip_blank
read_json-render x = rw (render-alone x (2 * length (render x)) (omega arith))

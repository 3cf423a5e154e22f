-- ===== src/Json/Read.antt =====
-- A reader of JSON text (RFC 8259) for the documents of `Json`: no negative number, fraction or
-- exponent; a number may begin with zeros, and a `\u` escape is one code, also in a surrogate pair.
pub mod Strings
pub mod Numbers
pub mod Starts
pub mod RoundTrip
use signal_call_tunnel.Base.{
  ℕ, zero, suc, ◌+◌, ◌*◌, ◌-◌, Bool, true, false, ◌&&◌, ◌||◌, List, [], ◌∷◌, Option, none, some,
  ◌>>=◌, Text, codes, leb, ltb, ◌==◌, if◌then◌else◌, length,
}
use signal_call_tunnel.Json.{
  Json, null, bool, num, str, arr, obj, Items, nil, cons, Fields, end, field,
}

abbrev pub is_blank : ℕ → Bool
is_blank c = c == 32 || (c == 9 || (c == 10 || c == 13))

unfoldable pub skip_blank : Text → Text
skip_blank [] = []
skip_blank (c ∷ s) = let rest = skip_blank s in if is_blank c then rest else c ∷ s

-- The text behind `word`, if it is the beginning.
unfoldable pub strip : Text → Text → Option Text
strip [] s = some s
strip (w ∷ word) [] = none
strip (w ∷ word) (c ∷ s) = let rest = strip word s in if w == c then rest else none

-- What a string goes on with: its end, or a character, each with the text behind it.
pub data Chunk : Type 0 where
  closed : Text → Chunk
  char : ℕ → Text → Chunk
  broken : Chunk

unfoldable pub hex_value : ℕ → Option ℕ
hex_value c =
    if leb 48 c && leb c 57
    then some (c - 48)
    else if leb 97 c && leb c 102
    then some (c - 87)
    else if leb 65 c && leb c 70
    then some (c - 55)
    else none

unfoldable four_digits : ℕ → ℕ → ℕ → ℕ → Option ℕ
unfolding hex_value
four_digits a b c d = do
  i ← hex_value a
  j ← hex_value b
  k ← hex_value c
  l ← hex_value d
  some (((i * 16 + j) * 16 + k) * 16 + l)

unfoldable pub code_escape : Text → Chunk
unfolding four_digits
code_escape (a ∷ b ∷ c ∷ d ∷ s) = elim (four_digits a b c d) [ none ↦ broken | some n ↦ char n s ]
code_escape _ = broken

-- What the letter behind a backslash stands for.
abbrev pub letter_escape : ℕ → Option ℕ
letter_escape c =
    if c == b'"' || (c == 92 || c == b'/')
    then some c
    else if c == b'b'
    then some 8
    else if c == b'f'
    then some 12
    else if c == b'n'
    then some 10
    else if c == b'r'
    then some 13
    else if c == b't'
    then some 9
    else none

unfoldable pub unescape : Text → Chunk
unfolding code_escape
unescape [] = broken
unescape (c ∷ s) =
    if c == b'u'
    then code_escape s
    else elim (letter_escape c) [ none ↦ broken | some n ↦ char n s ]

unfoldable pub next : Text → Chunk
unfolding unescape
next [] = broken
next (c ∷ s) =
    if c == b'"'
    then closed s
    else if c == 92
    then unescape s
    else if ltb c 32
    then broken
    else char c s

abbrev pub after_chunk : (Text → Option (Text × Text)) → Chunk → Option (Text × Text)
after_chunk more (closed s) = some ([], s)
after_chunk more (char c s) = do (t, rest) ← more s; some (c ∷ t, rest)
after_chunk more broken = none

unfoldable pub read_chars : ℕ → Text → Option (Text × Text)
unfolding next
read_chars zero s = none
read_chars (suc fuel) s = after_chunk (read_chars fuel) (next s)

-- The string whose opening quote has been read.
unfoldable pub read_string : Text → Option (Text × Text)
unfolding read_chars
read_string s = read_chars (suc (length s)) s

abbrev pub is_digit : ℕ → Bool
is_digit c = leb 48 c && leb c 57

-- The digits that the text begins with, behind `acc`.
unfoldable pub read_digits : ℕ → Text → ℕ × Text
read_digits acc [] = (acc, [])
read_digits acc (c ∷ s) =
    let more = read_digits (acc * 10 + (c - 48)) s in if is_digit c then more else (acc, c ∷ s)

-- The text behind `c`, if `c` comes next.
unfoldable pub expect : ℕ → Text → Option Text
unfolding skip_blank strip
expect c s = strip (c ∷ []) (skip_blank s)

unfoldable pub read_key : Text → Option (Text × Text)
unfolding expect read_string
read_key s = do
  s' ← expect b'"' s
  (k, rest) ← read_string s'
  rest' ← expect b':' rest
  some (k, rest')

unfoldable pub read_word : Text → Option (Json × Text)
unfolding strip
read_word s = elim (strip (codes "null") s) [
  | some rest ↦ some (null, rest)
  | none ↦ elim (strip (codes "true") s) [
    | some rest ↦ some (bool true, rest)
    | none ↦ do rest ← strip (codes "false") s; some (bool false, rest)
  ]
]

-- What follows an element: the end, or a comma and more.
abbrev pub next_item : (Text → Option (Items × Text)) → Json → Text → Option (Items × Text)
next_item more x [] = none
next_item more x (c ∷ s) =
    if c == b']'
    then some (cons x nil, s)
    else if c == b','
    then (do (xs, rest) ← more s; some (cons x xs, rest))
    else none

abbrev pub next_field :
    (Text → Option (Fields × Text)) → Text → Json → Text → Option (Fields × Text)
next_field more k v [] = none
next_field more k v (c ∷ s) =
    if c == b'}'
    then some (field k v end, s)
    else if c == b','
    then (do (fs, rest) ← more s; some (field k v fs, rest))
    else none

-- `more` reads the elements of an array, or the fields of an object, that is not empty.
unfoldable pub open_array : (Text → Option (Items × Text)) → Text → Option (Json × Text)
unfolding expect
open_array more s = elim (expect b']' s) [
  | some rest ↦ some (arr nil, rest)
  | none ↦ do (xs, rest) ← more s; some (arr xs, rest)
]

unfoldable pub open_object : (Text → Option (Fields × Text)) → Text → Option (Json × Text)
unfolding expect
open_object more s = elim (expect b'}' s) [
  | some rest ↦ some (obj end, rest)
  | none ↦ do (fs, rest) ← more s; some (obj fs, rest)
]

-- The value that begins with the character `c`.
unfoldable pub start_value :
    (Text → Option (Items × Text)) → (Text → Option (Fields × Text)) → Text → Option (Json × Text)
unfolding read_string read_digits read_word open_array open_object
start_value items fields [] = none
start_value items fields (c ∷ s) =
    if c == b'"'
    then (do (t, rest) ← read_string s; some (str t, rest))
    else if c == b'['
    then open_array items s
    else if c == b'{'
    then open_object fields s
    else if is_digit c
    then (let (n, rest) = read_digits 0 (c ∷ s) in some (num n, rest))
    else read_word (c ∷ s)

unfoldable mutual
  unfolding start_value read_key skip_blank

  pub read_value : ℕ → Text → Option (Json × Text)
  read_value zero s = none
  read_value (suc fuel) s = start_value (read_items fuel) (read_fields fuel) (skip_blank s)

  pub read_items : ℕ → Text → Option (Items × Text)
  read_items zero s = none
  read_items (suc fuel) s = do
    (x, rest) ← read_value fuel s
    next_item (read_items fuel) x (skip_blank rest)

  pub read_fields : ℕ → Text → Option (Fields × Text)
  read_fields zero s = none
  read_fields (suc fuel) s = do
    (k, rest) ← read_key s
    (v, rest') ← read_value fuel rest
    next_field (read_fields fuel) k v (skip_blank rest')

-- The document that a whole text holds.
abbrev pub whole : Option (Json × Text) → Option Json
whole none = none
whole (some (d, [])) = some d
whole (some (d, c ∷ s)) = none

-- Two calls for each character are enough.
unfoldable pub read_json : Text → Option Json
unfolding read_value skip_blank
read_json s = whole (do (d, rest) ← read_value (2 * length s) s; some (d, skip_blank rest))

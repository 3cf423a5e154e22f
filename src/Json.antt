-- ===== src/Json.antt =====
-- JSON documents and their text (RFC 8259), by which the lines on the control channel are judged.
pub mod Access
pub mod Escape
pub mod Read
use signal_call_tunnel.Base.{
  ℕ, ◌+◌, ◌/◌, ◌%◌, ◌≤◌, ◌≢◌, Bool, true, false, List, [], ◌∷◌, ◌++◌, Option, none, some, Text,
  codes, ltb, ◌==◌, if◌then◌else◌, decimal, text_eq,
}

mutual
  pub data Json : Type 0 where
    null : Json
    bool : Bool → Json
    num : ℕ → Json
    str : Text → Json
    arr : Items → Json
    obj : Fields → Json

  pub data Items : Type 0 where
    nil : Items
    cons : Json → Items → Items

  pub data Fields : Type 0 where
    end : Fields
    field : Text → Json → Fields → Fields

abbrev hex_digit : ℕ → ℕ
hex_digit n = if ltb n 10 then 48 + n else 87 + n

-- A character of a string, escaped where a JSON string cannot hold it.
unfoldable pub escape_char : ℕ → Text
escape_char c =
    if c == b'"'
    then codes "\\\""
    else if c == 92
    then codes "\\\\"
    else if ltb c 32
    then codes "\\u00" ++ hex_digit (c / 16) ∷ hex_digit (c % 16) ∷ []
    else c ∷ []

unfoldable pub escape : Text → Text
escape [] = []
escape (c ∷ s) = escape_char c ++ escape s

abbrev pub quote : Text → Text
quote s = b'"' ∷ escape s ++ b'"' ∷ []

abbrev pub bool_text : Bool → Text
bool_text true = codes "true"
bool_text false = codes "false"

unfoldable mutual
  pub render : Json → Text
  render null = codes "null"
  render (bool b) = bool_text b
  render (num n) = decimal n
  render (str s) = quote s
  render (arr xs) = b'[' ∷ render_items xs ++ b']' ∷ []
  render (obj fs) = b'{' ∷ render_fields fs ++ b'}' ∷ []

  pub render_items : Items → Text
  render_items nil = []
  render_items (cons x nil) = render x
  render_items (cons x (cons y ys)) = render x ++ b',' ∷ render_items (cons y ys)

  pub render_fields : Fields → Text
  render_fields end = []
  render_fields (field k v end) = quote k ++ b':' ∷ render v
  render_fields (field k v (field k' v' fs)) =
      quote k ++ b':' ∷ render v ++ b',' ∷ render_fields (field k' v' fs)

-- ===== src/Json.antt =====
-- nlohmann::json, which the program only calls: its values, `parse`, `dump` and the accessors are
-- parameters, and what the program relies on of them is the record of laws. `none` stands for an
-- exception of the class json::exception. Texts are taken to be valid UTF-8, as `dump` wants them.
pub mod Sample
use booking.Prelude.{Bool, true, false, ◌≡◌, List, [], ◌∷◌, ◌++◌, Option, none, some, All, ◌==◌}
use booking.Prelude.Text.{Str}
use booking.Prelude.Maps.{lookup}

pub record JsonLib : Type 1 where
  pub Json : Type 0
  pub null : Json
  pub string : Str → Json
  pub array : List Json → Json
  pub object : List (Str × Json) → Json
  pub parse : Str → Option Json
  pub dump : Json → Str
  -- `stream >> j`, which takes one value and leaves what is behind it, and `dump(2)`.
  pub read : Str → Option Json
  pub dump_indented : Json → Str
  -- `j[key]` on a value that may be changed: a missing key is a null entry.
  pub at : Json → Str → Option Json
  -- `j.value(key, default)` at a text and at a value.
  pub value_string : Json → Str → Str → Option Str
  pub value_json : Json → Str → Json → Option Json
  -- `j.get<std::string>()`, and the elements of `j` if `is_array()`.
  pub get_string : Json → Option Str
  pub elements : Json → Option (List Json)
  pub contains : Json → Str → Bool

abbrev pub newline : Str
newline = b'\n' ∷ []

-- Documented behaviour: a dump parses back, white space behind it included, an indented one too; the accessors read the
-- entries of an object; a dump escapes control characters, so that it has no zero byte; a text
-- gives its string, an array its elements.
pub record JsonLaws (J : JsonLib) : Type 0 where
  pub parse-dump : (j : J.Json) → J.parse (J.dump j ++ newline) ≡ some j
  pub read-dump_indented : (j : J.Json) → J.read (J.dump_indented j) ≡ some j
  pub dump_nonzero : (j : J.Json) → All (λ c. (c == 0) ≡ false) (J.dump j)
  pub at-object :
      (fs : List (Str × J.Json)) (k : Str) (v : J.Json)
      → lookup k fs ≡ some v
      → J.at (J.object fs) k ≡ some v
  pub value_string-object :
      (fs : List (Str × J.Json)) (k s d : Str)
      → lookup k fs ≡ some (J.string s)
      → J.value_string (J.object fs) k d ≡ some s
  pub value_json-object :
      (fs : List (Str × J.Json)) (k : Str) (v d : J.Json)
      → lookup k fs ≡ some v
      → J.value_json (J.object fs) k d ≡ some v
  pub get_string-string : (s : Str) → J.get_string (J.string s) ≡ some s
  pub elements-array : (js : List J.Json) → J.elements (J.array js) ≡ some js
  pub contains-object :
      (fs : List (Str × J.Json)) (k : Str) (v : J.Json)
      → lookup k fs ≡ some v
      → J.contains (J.object fs) k ≡ true

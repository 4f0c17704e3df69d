-- ===== src/Json/Sample.antt =====
-- A small value type with a codec, at which the laws of the json parameter hold: the examples
-- instantiate it.
use booking.Prelude.{
  ℕ, zero, suc, ◌+◌, ◌≤◌, ◌≡◌, refl, Bool, true, false, List, [], ◌∷◌, ◌++◌, append_assoc,
  append-nil, Option, none, some, arith, ◌&&◌, length, length-append, if◌then◌else◌, ◌==◌, All,
  All-append,
}
use mathlib.Core.Path.{subst}
use booking.Prelude.Text.{Str, str_eq}
use booking.Json.{JsonLib, JsonLaws, newline}
use booking.Prelude.Maps.{lookup}

-- `item` and `field` are the cells of an array and of an object.
pub data Value : Type 0 where
  nothing nil end : Value
  text : Str → Value
  item : Value → Value → Value
  field : Str → Value → Value → Value

-- Each byte is shifted by two, and a one ends the text: no byte written is zero.
put_text : Str → Str
put_text [] = 1 ∷ []
put_text (c ∷ s) = suc (suc c) ∷ put_text s

get_text : Str → Option (Str × Str)
get_text [] = none
get_text (zero ∷ r) = none
get_text (suc zero ∷ r) = some ([], r)
get_text (suc (suc c) ∷ r) = elim (get_text r) [ none ↦ none | some (s, r') ↦ some (c ∷ s, r') ]

put : Value → Str
unfolding put_text
put nothing = 1 ∷ []
put nil = 2 ∷ []
put end = 3 ∷ []
put (text s) = 4 ∷ put_text s
put (item a b) = 5 ∷ (put a ++ put b)
put (field k a b) = 6 ∷ (put_text k ++ (put a ++ put b))

get : ℕ → Str → Option (Value × Str)
unfolding get_text
get zero r = none
get (suc f) [] = none
get (suc f) (zero ∷ r) = none
get (suc f) (suc zero ∷ r) = some (nothing, r)
get (suc f) (suc (suc zero) ∷ r) = some (nil, r)
get (suc f) (suc (suc (suc zero)) ∷ r) = some (end, r)
get (suc f) (suc (suc (suc (suc zero))) ∷ r) = elim (get_text r) [
  | none ↦ none
  | some (s, r') ↦ some (text s, r')
]
get (suc f) (suc (suc (suc (suc (suc zero)))) ∷ r) = elim (get f r) [
  | none ↦ none
  | some (a, r') ↦ elim (get f r') [ none ↦ none | some (b, r'') ↦ some (item a b, r'') ]
]
get (suc f) (suc (suc (suc (suc (suc (suc (suc c)))))) ∷ r) = none
get (suc f) (suc (suc (suc (suc (suc (suc zero))))) ∷ r) = elim (get_text r) [
  | none ↦ none
  | some (k, r') ↦ elim (get f r') [
    | none ↦ none
    | some (a, r'') ↦ elim (get f r'') [ none ↦ none | some (b, r₃) ↦ some (field k a b, r₃) ]
  ]
]

get_text-put_text : (s r : Str) → get_text (put_text s ++ r) ≡ some (s, r)
unfolding get_text put_text
get_text-put_text [] r = refl
get_text-put_text (c ∷ s) r = rw (get_text-put_text s r)

size : Value → ℕ
size (item a b) = suc (size a + size b)
size (field k a b) = suc (size a + size b)
size _ = 1

get-put : (f : ℕ) (v : Value) (r : Str) → size v ≤ f → get f (put v ++ r) ≡ some (v, r)
unfolding get put size
get-put zero nothing r h = absurd (omega arith)
get-put zero nil r h = absurd (omega arith)
get-put zero end r h = absurd (omega arith)
get-put zero (text s) r h = absurd (omega arith)
get-put zero (item a b) r h = absurd (omega arith)
get-put zero (field k a b) r h = absurd (omega arith)
get-put (suc f) nothing r h = refl
get-put (suc f) nil r h = refl
get-put (suc f) end r h = refl
get-put (suc f) (text s) r h = rw (get_text-put_text s r, get)
get-put (suc f) (item a b) r h = rw (
  append_assoc (put a) (put b) r,
  get-put f a (put b ++ r) (omega arith),
  get-put f b r (omega arith),
)
get-put (suc f) (field k a b) r h = rw (
  append_assoc (put_text k) (put a ++ put b) r,
  append_assoc (put a) (put b) r,
  get_text-put_text k (put a ++ (put b ++ r)),
  get,
  get-put f a (put b ++ r) (omega arith),
  get-put f b r (omega arith),
)

size-le : (v : Value) → size v ≤ length (put v)
unfolding size put
size-le nothing = omega arith
size-le nil = omega arith
size-le end = omega arith
size-le (text s) = omega arith
size-le (item a b) = omega (arith, size-le a, size-le b, length-append (put a) (put b))
size-le (field k a b) = omega (
  arith,
  size-le a,
  size-le b,
  length-append (put a) (put b),
  length-append (put_text k) (put a ++ put b),
)

-- White space behind the value.
closed : Str → Bool
closed [] = true
closed (c ∷ r) = (c == b'\n') && closed r

parse_text : Str → Option Value
unfolding get closed
parse_text s = elim (get (length s) s) [
  | none ↦ none
  | some (v, r) ↦ if closed r then some v else none
]

parse_text-put : (v : Value) → parse_text (put v ++ newline) ≡ some v
unfolding parse_text
parse_text-put v = ground (
  arith,
  get-put (length (put v ++ newline)) v newline
      (omega (arith, size-le v, length-append (put v) newline)),
)

read_text : Str → Option Value
unfolding get
read_text s = elim (get (length s) s) [ none ↦ none | some (v, r) ↦ some v ]

read_text-put : (v : Value) → read_text (put v) ≡ some v
unfolding read_text
read_text-put v =
    rw
      (
        read_text,
        subst (λ s. get (length (put v)) s ≡ some (v, [])) (append-nil (put v))
            (get-put (length (put v)) v [] (size-le v)),
      )
      refl

fields : List (Str × Value) → Value
fields [] = end
fields ((k, v) ∷ fs) = field k v (fields fs)

items : List Value → Value
items [] = nil
items (v ∷ vs) = item v (items vs)

find : Str → Value → Option Value
find k (field j v r) = if str_eq j k then some v else find k r
find k _ = none

find-fields : (k : Str) (fs : List (Str × Value)) → find k (fields fs) ≡ lookup k fs
unfolding find fields lookup
find-fields k [] = refl
find-fields k ((j, v) ∷ fs) = ground (arith, find-fields k fs)

at_text : Value → Str → Option Value
unfolding find
at_text nothing k = some nothing
at_text end k = some nothing
at_text (field j v r) k = elim (find k (field j v r)) [ none ↦ some nothing | some w ↦ some w ]
at_text _ k = none

text_of : Value → Option Str
text_of (text s) = some s
text_of _ = none

value_at : Value → Str → Value → Option Value
unfolding find
value_at end k d = some d
value_at (field j v r) k d = elim (find k (field j v r)) [ none ↦ some d | some w ↦ some w ]
value_at _ k d = none

value_text : Value → Str → Str → Option Str
unfolding value_at text_of
value_text j k d = elim (value_at j k (text d)) [ none ↦ none | some v ↦ text_of v ]

elements_of : Value → Option (List Value)
elements_of nil = some []
elements_of (item a b) = elim (elements_of b) [ none ↦ none | some vs ↦ some (a ∷ vs) ]
elements_of _ = none

has : Value → Str → Bool
unfolding find
has v k = elim (find k v) [ none ↦ false | some w ↦ true ]

unfoldable pub sample : JsonLib
unfolding put parse_text read_text fields items at_text value_text text_of elements_of has
sample = record {
  Json = Value;
  null = nothing;
  string = text;
  array = items;
  object = fields;
  parse = parse_text;
  dump = put;
  read = read_text;
  dump_indented = put;
  at = at_text;
  value_string = value_text;
  value_json = value_at;
  get_string = text_of;
  elements = elements_of;
  contains = has;
}

elements_of-items : (vs : List Value) → elements_of (items vs) ≡ some vs
unfolding elements_of items
elements_of-items [] = refl
elements_of-items (v ∷ vs) = rw (elements_of-items vs)

at_text-fields :
    (fs : List (Str × Value)) (k : Str) (v : Value)
    → lookup k fs ≡ some v
    → at_text (fields fs) k ≡ some v
unfolding at_text fields
at_text-fields [] k v h = absurd (unfold lookup in cc)
at_text-fields ((j, w) ∷ fs) k v h = ground (arith, find-fields k ((j, w) ∷ fs))

value_at-fields :
    (fs : List (Str × Value)) (k : Str) (v d : Value)
    → lookup k fs ≡ some v
    → value_at (fields fs) k d ≡ some v
unfolding value_at fields
value_at-fields [] k v d h = absurd (unfold lookup in cc)
value_at-fields ((j, w) ∷ fs) k v d h = ground (arith, find-fields k ((j, w) ∷ fs))

has-fields :
    (fs : List (Str × Value)) (k : Str) (v : Value)
    → lookup k fs ≡ some v
    → has (fields fs) k ≡ true
unfolding has
has-fields fs k v h = ground (arith, find-fields k fs)

value_text-fields :
    (fs : List (Str × Value)) (k s d : Str)
    → lookup k fs ≡ some (text s)
    → value_text (fields fs) k d ≡ some s
unfolding value_text
value_text-fields fs k s d h = ground (arith, value_at-fields fs k (text s) (text d) h)

put_text_nonzero : (s : Str) → All (λ c. (c == 0) ≡ false) (put_text s)
unfolding put_text
put_text_nonzero [] = (refl, tt)
put_text_nonzero (c ∷ s) = (ground arith, put_text_nonzero s)

put_nonzero : (v : Value) → All (λ c. (c == 0) ≡ false) (put v)
unfolding put
put_nonzero nothing = (refl, tt)
put_nonzero nil = (refl, tt)
put_nonzero end = (refl, tt)
put_nonzero (text s) = (refl, put_text_nonzero s)
put_nonzero (item a b) =
    (refl, All-append (λ (c : ℕ). (c == 0) ≡ false) (put a) (put b) (put_nonzero a) (put_nonzero b))
put_nonzero (field k a b) = (
  refl,
  All-append (λ (c : ℕ). (c == 0) ≡ false) (put_text k) (put a ++ put b) (put_text_nonzero k)
      (All-append (λ (c : ℕ). (c == 0) ≡ false) (put a) (put b) (put_nonzero a) (put_nonzero b)),
)

pub sample-JsonLaws : JsonLaws sample
unfolding sample
sample-JsonLaws = record {
  parse-dump = parse_text-put;
  read-dump_indented = read_text-put;
  dump_nonzero = put_nonzero;
  at-object = at_text-fields;
  value_string-object = value_text-fields;
  value_json-object = value_at-fields;
  get_string-string = λ s. refl;
  elements-array = elements_of-items;
  contains-object = has-fields;
}

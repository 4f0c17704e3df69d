-- ===== src/Message/RoundTrip.antt =====
-- What `deserialize` makes of texts that `serialize` wrote, and of texts that are no message.
use booking.Prelude.{◌≡◌, refl, List, [], ◌∷◌, none, some, arith}
use booking.Prelude.Text.{Str, codes, str_eq}
use booking.Prelude.Maps.{lookup}
use booking.Json.{JsonLib, JsonLaws}
use booking.Message.{
  Header, Body, Message, header_to_json, header_from_json, body_to_json, body_from_json,
  message_to_json, serialize, deserialize, empty_message,
}

module _ (J : JsonLib) (laws : JsonLaws J) where
  header_from-to : (h : Header) → header_from_json J (header_to_json J h) ≡ some h
  unfolding header_from_json header_to_json lookup str_eq
  header_from-to h = rw (
    laws.value_string-object _ (codes "timestamp") h.timestamp [] refl,
    laws.value_string-object _ (codes "token") h.token [] refl,
  )

  body_from-to : (b : Body J) → body_from_json J (body_to_json J b) ≡ some b
  unfolding body_from_json body_to_json lookup str_eq
  body_from-to b = rw (
    laws.value_string-object _ (codes "type") b.type [] refl,
    laws.value_json-object _ (codes "data") b.payload (J.object []) refl,
  )

  abbrev parts : Message J → List (Str × J.Json)
  parts m = (codes "header", header_to_json J m.header) ∷ (codes "body", body_to_json J m.body) ∷ []

  -- Every message survives the wire: the text that `serialize` writes is read back by
  -- `deserialize` as the same message, header and body, under the documented laws of the json
  -- library.
  pub deserialize-serialize : (m : Message J) → deserialize J (serialize J m) ≡ m
  unfolding deserialize serialize message_to_json lookup str_eq
  deserialize-serialize m = ground (
    arith,
    laws.parse-dump (message_to_json J m),
    laws.at-object (parts m) (codes "header") (header_to_json J m.header) refl,
    header_from-to m.header,
    laws.at-object (parts m) (codes "body") (body_to_json J m.body) refl,
    body_from-to m.body,
  )

module _ (J : JsonLib) where
  -- A text that the json library does not parse gives the empty message.
  pub deserialize_unparsed : (s : Str) → J.parse s ≡ none → deserialize J s ≡ empty_message J
  unfolding deserialize
  deserialize_unparsed s h = ground arith

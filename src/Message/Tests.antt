-- ===== src/Message/Tests.antt =====
-- The messages at concrete contents.
use booking.Prelude.{◌≡◌, ◌∷◌, []}
use booking.Prelude.Text.{codes}
use booking.Json.Sample.{sample, sample-JsonLaws}
use booking.Message.{Message, serialize, deserialize, create_room_list}
use booking.Message.RoundTrip.{deserialize-serialize}

abbrev rooms : Message sample
rooms = create_room_list sample (codes "2025-01-01") (codes "General" ∷ codes "Tea" ∷ [])

deserialize-serialize_example : deserialize sample (serialize sample rooms) ≡ rooms
deserialize-serialize_example = deserialize-serialize sample sample-JsonLaws rooms

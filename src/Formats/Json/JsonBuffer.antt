-- ===== src/Formats/Json/JsonBuffer.antt =====
-- `JsonBuffer` of src/piconaut/formats/json/value_builder.h.
use piconaut.Prelude.{ℕ, Str, Option, none, some, [], length, take, take_all, ◌≡◌, arith}

-- `data` is what stands from the address of that name on, and `buffer` the text that the shared
-- buffer holds, `none` where it is null.
pub record JsonBuffer : Type 0 where
  pub data_bytes : Str
  pub size : ℕ
  pub buffer : Option Str

-- `JsonBuffer()`
abbrev pub new_buffer : JsonBuffer
new_buffer = record { data_bytes = []; size = 0; buffer = none }

-- `ToString()`
unfoldable pub to_string : JsonBuffer → Str
to_string j = elim j.buffer [ none ↦ [] | some text ↦ take j.size j.data_bytes ]

-- The bytes behind an address and a length, as they are sent.
unfoldable pub sent_bytes : JsonBuffer → Str
sent_bytes j = take j.size j.data_bytes

-- What the serializers leave in a buffer that has been written to.
abbrev pub filled : Str → JsonBuffer
filled text = record new_buffer { buffer = some text; data_bytes = text; size = length text }

-- The text that has been written is what `ToString` reads, and what is sent.
pub filled-to_string :
    (text : Str) → (to_string (filled text) ≡ text) × (sent_bytes (filled text) ≡ text)
unfolding to_string sent_bytes
filled-to_string text =
    (take_all (length text) text (omega arith), take_all (length text) text (omega arith))

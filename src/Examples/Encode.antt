-- ===== src/Examples/Encode.antt =====
-- src/capture.rs: the encoding theorems at concrete inputs.
use redis_event_stream_modul.Base.{
  text, length, true, [], ◌∷◌, ◌++◌, map, some, ◌≡◌, ◌≢◌, ◌≤◌, ◌↔◌, arith, All,
}
use redis_event_stream_modul.Config.Names.{is_name_char}
use redis_event_stream_modul.Config.Filter.{generic, class_bit}
use redis_event_stream_modul.Encode.Sanitize.{sanitize, sanitize-All, sanitize_iff, sanitize_idem}
use redis_event_stream_modul.Encode.Classes.{class_name, class_bit-class_name}
use redis_event_stream_modul.Encode.Json.{read_string, plain, escape, quote, read_string-escape}
use redis_event_stream_modul.Encode.Base64.{base64, decode64, decode64-base64, base64_chars}
use redis_event_stream_modul.Encode.Document.{batch_data}
use redis_event_stream_modul.Encode.Document.Reader
use redis_event_stream_modul.Encode.Document.RoundTrip
use redis_event_stream_modul.Encode.Document.RoundTrip.{read_batch-batch_data}
use redis_event_stream_modul.Examples.World.{event_on}

sanitize-All_example :
    (length (sanitize (text "my event#")) ≤ 128)
    × All (λ c. is_name_char c ≡ true) (sanitize (text "my event#"))
    × All (λ c. c ≢ b'#') (sanitize (text "my event#"))
sanitize-All_example = sanitize-All (text "my event#")

sanitize_iff_example :
    (sanitize (text "json.set") ≡ text "json.set")
    ↔ ((length (text "json.set") ≤ 128) × All (λ c. is_name_char c ≡ true) (text "json.set"))
sanitize_iff_example = sanitize_iff (text "json.set")

sanitize_idem_example : sanitize (sanitize (text "a b")) ≡ sanitize (text "a b")
sanitize_idem_example = sanitize_idem (text "a b")

class_bit-class_name_example : class_bit (class_name generic) ≡ some generic
class_bit-class_name_example = class_bit-class_name generic

read_string-escape_example :
    read_string plain (escape (text "a\"b") ++ quote ∷ text ",") ≡ some (text "a\"b", text ",")
read_string-escape_example = read_string-escape (text "a\"b") (text ",")

decode64-base64_example : decode64 (base64 (255 ∷ 0 ∷ 34 ∷ 7 ∷ [])) ≡ some (255 ∷ 0 ∷ 34 ∷ 7 ∷ [])
decode64-base64_example =
    decode64-base64 (255 ∷ 0 ∷ 34 ∷ 7 ∷ [])
      (omega arith, (omega arith, (omega arith, (omega arith, tt))))

base64_chars_example : All (λ c. (c ≢ 34) × (c ≢ 92) × (32 ≤ c)) (base64 (255 ∷ 0 ∷ []))
base64_chars_example = base64_chars (255 ∷ 0 ∷ [])

read_batch-batch_data_example :
    Reader.read_batch decode64 2 (batch_data (event_on (text "k1") ∷ event_on (text "k2") ∷ []))
    ≡ some (map RoundTrip.item_of (event_on (text "k1") ∷ event_on (text "k2") ∷ []))
read_batch-batch_data_example =
    read_batch-batch_data 2 (event_on (text "k1") ∷ event_on (text "k2") ∷ [])
      (
        ((omega arith, (omega arith, tt)), omega arith),
        (((omega arith, (omega arith, tt)), omega arith), tt),
      )
      (omega arith)

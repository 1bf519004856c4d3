-- ===== src/Dissectors/Http.antt =====
-- src/dissectors/http/http.c and its header. The parser of http-parser.c, a copy of another
-- project's library, is a parameter: the callbacks that it makes on some bytes, and its error.
pub mod Lawful
pub mod Fields
use open_sniffer.Base.{
  ℕ, ◌+◌, ◌||◌, ◌&&◌, not, String, Bool, true, false, Option, none, some, List, [], ◌∷◌, Bytes,
  length, ltb, ◌==◌, if◌then◌else◌,
}
use open_sniffer.Machine.{
  Result, ok, and_then, Arg, text, int, str, null_str, M, ◌>>=◌, ◌>>◌, ret, lift, printf, Buffer,
  bytes_at,
}
use open_sniffer.Osi.Packet.{Packet, Session, osi_layer_7, data_of}
use open_sniffer.Osi.Dissector.{Dissector, osi_packet_not_supported, osi_packet_supported}
use open_sniffer.Dissectors.Table.{find_value}

abbrev pub http_output_header : String
http_output_header =
    "\u{1b}[95m-------------------------------------------------------\n--------------------  \u{1b}[1mHTTP Header\u{1b}[21m  --------------------\n-------------------------------------------------------\n"

abbrev pub http_output_footer : String
http_output_footer = "-------------------------------------------------------\n\u{1b}[0m"

-- `methods`
abbrev pub methods : List (ℕ × String)
methods =
    (0, "DELETE")
    ∷ (1, "GET")
    ∷ (2, "HEAD")
    ∷ (3, "POST")
    ∷ (4, "PUT")
    ∷ (5, "CONNECT")
    ∷ (6, "OPTIONS")
    ∷ (7, "TRACE")
    ∷ (8, "COPY")
    ∷ (9, "LOCK")
    ∷ (10, "MKCOL")
    ∷ (11, "MOVE")
    ∷ (12, "PROPFIND")
    ∷ (13, "PROPPATCH")
    ∷ (14, "SEARCH")
    ∷ (15, "UNLOCK")
    ∷ (16, "REPORT")
    ∷ (17, "MKACTIVITY")
    ∷ (18, "CHECKOUT")
    ∷ (19, "MERGE")
    ∷ (20, "MSEARCH")
    ∷ (21, "NOTIFY")
    ∷ (22, "SUBSCRIBE")
    ∷ (23, "UNSUBSCRIBE")
    ∷ (24, "PATCH")
    ∷ (25, "PURGE")
    ∷ (26, "MKCALENDAR")
    ∷ []

-- A call that the parser makes of a callback of the settings; `url` comes with `parser->method`.
pub data Event : Type 0 where
  message_begin headers_complete message_complete chunk_header chunk_complete : Event
  url : ℕ → Bytes → Event
  status header_field header_value body : Bytes → Event

-- What parsing some bytes comes to, if every callback returns 0.
pub record Parsed : Type 0 where
  pub http_errno : ℕ
  pub events : List Event

-- `http_parser_settings`: a callback for each event, or NULL.
abbrev pub Settings : Type 0
Settings = Event → Option (M (Unit {0}))

-- `http_method_from_id`
unfoldable pub method_from_id : ℕ → Option String
unfolding find_value
method_from_id id = find_value id methods

abbrev pub str_or_null : Option String → Arg
str_or_null none = null_str
str_or_null (some s) = str s

-- `parser_settings` with `on_url`, `on_status`, `on_header_field`, `on_header_value` and `on_body`,
-- which all return 0.
unfoldable pub parser_settings : Settings
unfolding method_from_id
parser_settings (url method at) =
    some (printf "%s %.*s\n" (str_or_null (method_from_id method) ∷ text at ∷ []))
parser_settings (status at) = some (printf "Response status : %.*s\n" (text at ∷ []))
parser_settings (header_field at) = some (printf "%.*s: " (text at ∷ []))
parser_settings (header_value at) = some (printf "%.*s\n" (text at ∷ []))
parser_settings (body at) = some (printf "Body size : %zu\n" (int (length at) ∷ []))
parser_settings message_begin = none
parser_settings headers_complete = none
parser_settings message_complete = none
parser_settings chunk_header = none
parser_settings chunk_complete = none

-- `parser_settings_empty`
unfoldable pub parser_settings_empty : Settings
parser_settings_empty event = none

unfoldable pub run_callback : Option (M (Unit {0})) → M (Unit {0})
run_callback none = ret tt
run_callback (some callback) = callback

unfoldable pub run_events : Settings → List Event → M (Unit {0})
unfolding run_callback
run_events settings [] = ret tt
run_events settings (e ∷ events) = run_callback (settings e) >> run_events settings events

module _ (parse : Bytes → Parsed) where
  -- `http_parser_init` and `http_parser_execute` on the payload
  unfoldable pub execute : Settings → Packet → Buffer → M ℕ
  unfolding run_events
  execute settings p b = do
    input ← lift (bytes_at b 0 p.size)
    run_events settings (parse input).events
    ret (parse input).http_errno

  unfoldable pub handles_data : Packet → Option Buffer → Option Session → Result Bool
  handles_data packet none session = ok osi_packet_not_supported
  handles_data packet (some b) none = ok osi_packet_not_supported
  handles_data packet (some b) (some s) =
      if not (packet.protocol == 0)
      then ok osi_packet_not_supported
      else and_then (bytes_at b 0 packet.size) λ input. ok (
          if not ((parse input).http_errno == 0)
          then osi_packet_not_supported
          else osi_packet_supported)

  -- `http_dissector_handles`: the parser runs on `parser_settings_empty`, so it calls nothing.
  unfoldable pub handles : Option Packet → Result Bool
  unfolding handles_data
  handles none = ok osi_packet_not_supported
  handles (some packet) = handles_data packet packet.payload packet.session

  unfoldable pub dump_header : Packet × Buffer → M (Unit {0})
  unfolding execute
  dump_header (p, b) = do
    printf http_output_header []
    errno ← execute parser_settings p b
    printf http_output_footer []

  -- `http_dissector_dump`
  unfoldable pub dump : Option Packet → M (Unit {0})
  unfolding handles data_of dump_header
  dump packet = do
    supported ← lift (handles packet)
    if supported then lift (data_of packet) >>= dump_header else ret tt

  -- `http_dissector_decapsulate`
  unfoldable pub decapsulate : Option Packet → M (Option Packet)
  decapsulate packet = ret none

  -- `http_dissector_new`
  abbrev pub dissector : Dissector
  dissector = record {
    layer = osi_layer_7;
    operations = record { handles = handles; dump = dump; decapsulate = decapsulate };
    name = "http";
  }

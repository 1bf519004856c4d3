-- ===== src/Tests/Content.antt =====
-- HTTP payloads. The parser is a stand-in: a payload with a byte is a request for "/".
use open_sniffer.Base.{◌≡◌, ◌≢◌, ◌⊎◌, true, false, some, [], ◌∷◌, Bytes, codes}
use open_sniffer.Machine.{ok, str, text}
use open_sniffer.Osi.Packet.{Session}
use open_sniffer.Dissectors.Wire.{prints, line}
use open_sniffer.Dissectors.Http.{
  method_from_id, message_begin, headers_complete, message_complete, url, header_field,
  header_value, Parsed, http_output_header, http_output_footer, handles, dump,
}
use open_sniffer.Dissectors.Http.Fields.{payload, dump-payload}
use open_sniffer.Tests.Chain.{two_blocks}

abbrev request : Bytes → Parsed
request [] = record { http_errno = 3; events = [] }
request (x ∷ bytes) = record {
  http_errno = 0;
  events =
      message_begin
      ∷ url 1 (codes "/")
      ∷ header_field (codes "Host")
      ∷ header_value (codes "a")
      ∷ headers_complete
      ∷ message_complete
      ∷ [];
}

abbrev stream : Session
stream = record { addr = 9; id = 0; src_port = 80; dest_port = 4000 }

dump-payload_example :
    (((request (codes "GET")).http_errno ≡ 0)
      × (handles request (some (payload (codes "GET") 1 stream)) ≡ ok true)
      × (dump request (some (payload (codes "GET") 1 stream)) two_blocks
          ≡ prints two_blocks (
              line http_output_header []
              ∷ line "%s %.*s\n" (str "GET" ∷ text (codes "/") ∷ [])
              ∷ line "%.*s: " (text (codes "Host") ∷ [])
              ∷ line "%.*s\n" (text (codes "a") ∷ [])
              ∷ line http_output_footer []
              ∷ [])))
    ⊎ (((request (codes "GET")).http_errno ≢ 0)
        × (handles request (some (payload (codes "GET") 1 stream)) ≡ ok false)
        × (dump request (some (payload (codes "GET") 1 stream)) two_blocks ≡ ok (tt, two_blocks)))
unfolding method_from_id
dump-payload_example = dump-payload (codes "GET") 1 stream request two_blocks

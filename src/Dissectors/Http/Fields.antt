-- ===== src/Dissectors/Http/Fields.antt =====
-- src/dissectors/http/http.c: payloads that come with a session, given to the dissector.
use mathlib.Core.List.{append-nil, append_assoc}
use open_sniffer.Base.{
  ℕ, ◌+◌, ◌≡◌, ◌≢◌, refl, ap, sym, ◌∙◌, ◌⊎◌, inl, inr, true, false, some, List, [], ◌∷◌, ◌++◌,
  Bytes, length, take-length, ◌==◌, ==_iff, Bool-cases, arith,
}
use open_sniffer.Machine.{Print, World, ok, text, int, bytes_at, run}
use open_sniffer.Machine.Reads.{bytes_at-ok}
use open_sniffer.Osi.Packet.{Packet, Session, data_of}
use open_sniffer.Dissectors.Wire.{line, prints, packet_of}
use open_sniffer.Dissectors.Http.{
  Event, message_begin, headers_complete, message_complete, chunk_header, chunk_complete, url,
  status, header_field, header_value, body, Parsed, method_from_id, str_or_null, parser_settings,
  run_callback, run_events, execute, handles, handles_data, dump_header, dump, http_output_header,
  http_output_footer,
}

-- What is printed of one event.
abbrev pub shown : Event → List Print
shown (url method at) = line "%s %.*s\n" (str_or_null (method_from_id method) ∷ text at ∷ []) ∷ []
shown (status at) = line "Response status : %.*s\n" (text at ∷ []) ∷ []
shown (header_field at) = line "%.*s: " (text at ∷ []) ∷ []
shown (header_value at) = line "%.*s\n" (text at ∷ []) ∷ []
shown (body at) = line "Body size : %zu\n" (int (length at) ∷ []) ∷ []
shown message_begin = []
shown headers_complete = []
shown message_complete = []
shown chunk_header = []
shown chunk_complete = []

-- What is printed of events in order.
abbrev pub all_shown : List Event → List Print
all_shown [] = []
all_shown (e ∷ events) = shown e ++ all_shown events

nothing : (w : World) → ok (tt, w) ≡ prints w []
nothing w = ap (λ t. ok (tt, record w { output = t })) (sym (append-nil w.output))

run_callback-shown :
    (e : Event) (w : World) → run_callback (parser_settings e) w ≡ prints w (shown e)
unfolding run_callback parser_settings run
run_callback-shown (url method at) w = refl
run_callback-shown (status at) w = refl
run_callback-shown (header_field at) w = refl
run_callback-shown (header_value at) w = refl
run_callback-shown (body at) w = refl
run_callback-shown message_begin w = nothing w
run_callback-shown headers_complete w = nothing w
run_callback-shown message_complete w = nothing w
run_callback-shown chunk_header w = nothing w
run_callback-shown chunk_complete w = nothing w

run_events-shown :
    (events : List Event) (w : World)
    → run_events parser_settings events w ≡ prints w (all_shown events)
unfolding run_events run
run_events-shown [] w = nothing w
run_events-shown (e ∷ events) w = rw (run_callback-shown e w) (
    run_events-shown events (record w { output = w.output ++ shown e })
    ∙ ap (λ t. ok (tt, record w { output = t }))
        (append_assoc w.output (shown e) (all_shown events)))

module _ (bytes : Bytes) (block : ℕ) (session : Session) where
  -- A payload without a protocol hint that comes with a session.
  abbrev pub payload : Packet
  payload = packet_of block 0 (some session) bytes

  whole : bytes_at (record { addr = block + 1; bytes = bytes }) 0 (length bytes) ≡ ok bytes
  whole =
      bytes_at-ok (record { addr = block + 1; bytes = bytes }) 0 (length bytes) (omega arith)
      ∙ ap ok (take-length (length bytes) bytes (omega arith))

  module _ (parse : Bytes → Parsed) where
    -- A payload with protocol 0 and a session is taken for HTTP exactly if the parser finds no error in
    -- it. Then the dump prints, between the header and the footer, a line for each URL, status, part of
    -- a header field and body that the parser reports, in its order, and nothing for the other events;
    -- else it prints nothing.
    pub dump-payload :
        (w : World)
        → (((parse bytes).http_errno ≡ 0)
            × (handles parse (some payload) ≡ ok true)
            × (dump parse (some payload) w
                ≡ prints w (
                    line http_output_header []
                    ∷ (all_shown (parse bytes).events ++ line http_output_footer [] ∷ []))))
          ⊎ (((parse bytes).http_errno ≢ 0)
              × (handles parse (some payload) ≡ ok false)
              × (dump parse (some payload) w ≡ ok (tt, w)))
    unfolding dump handles_data data_of run dump_header execute
    dump-payload w = elim (Bool-cases ((parse bytes).http_errno == 0)) [
      | inl e ↦ inl (
        (==_iff (parse bytes).http_errno 0).0 e,
        rw (whole, e) refl,
        rw (whole, e, execute, whole, run_events-shown (parse bytes).events (opened w))
            (simp append_assoc),
      )
      | inr e ↦ inr (ground arith, rw (whole, e) refl, rw (whole, e) refl)
    ]
      where
        opened : World → World
        opened v = record v { output = v.output ++ line http_output_header [] ∷ [] }

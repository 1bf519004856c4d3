-- ===== src/Dissectors/Http/Lawful.antt =====
-- src/dissectors/http/http.c and the contract of a dissector.
use open_sniffer.Base.{
  ◌≡◌, refl, ◌≤◌, inl, inr, false, not, Option, none, some, List, [], ◌∷◌, arith, length, ◌==◌,
  Bool-cases,
}
use open_sniffer.Machine.{run, Fault, ok, World, Buffer, bytes_at}
use open_sniffer.Machine.Rules.{
  Safe, IsQuiet, IsQuiet-bind, IsQuiet-then, IsQuiet-lift, IsQuiet-printf, IsQuiet-ret,
  Gives-and_then, bytes_at-Gives, Gives-weaken,
}
use open_sniffer.Osi.Packet.{Packet, Session}
use open_sniffer.Osi.Contract.{IsLawful}
use open_sniffer.Dissectors.Guard.{Shows, Shows-IsLawful_last}
use open_sniffer.Base.{Bytes}
use open_sniffer.Dissectors.Http.{
  Event, Parsed, parser_settings, parser_settings_empty, run_callback, run_events, execute,
  handles_data, handles, dump_header, dump, decapsulate, dissector, url, status, header_field,
  header_value, body,
}

-- With the empty settings the parser prints nothing: `handles` is the error of that run alone.
pub run_events-empty :
    (events : List Event) (w : World) → run_events parser_settings_empty events w ≡ ok (tt, w)
unfolding run_events parser_settings_empty run
run_events-empty [] w = refl
run_events-empty (e ∷ events) w = run_events-empty events w

module _ (F : Fault → Type 0) where
  run_callback-IsQuiet : (e : Event) → IsQuiet F (run_callback (parser_settings e))
  unfolding run_callback parser_settings
  run_callback-IsQuiet (url method at) = IsQuiet-printf _ _
  run_callback-IsQuiet (status at) = IsQuiet-printf _ _
  run_callback-IsQuiet (header_field at) = IsQuiet-printf _ _
  run_callback-IsQuiet (header_value at) = IsQuiet-printf _ _
  run_callback-IsQuiet (body at) = IsQuiet-printf _ _
  run_callback-IsQuiet _ = IsQuiet-ret tt

  run_events-IsQuiet : (events : List Event) → IsQuiet F (run_events parser_settings events)
  unfolding run_events
  run_events-IsQuiet [] = IsQuiet-ret tt
  run_events-IsQuiet (e ∷ events) =
      IsQuiet-then (run_callback-IsQuiet e) (run_events-IsQuiet events)

  input-Safe : (p : Packet) (b : Buffer) → p.size ≤ length b.bytes → Safe F (bytes_at b 0 p.size)
  input-Safe p b h = Gives-weaken F _ _ (bytes_at-Gives F b 0 p.size (inr (omega arith)))

  module _ (parse : Bytes → Parsed) where
    handles-Safe :
        (p : Packet) (s : Option Session) (b : Buffer)
        → p.size ≤ length b.bytes
        → Safe F (handles_data parse p (some b) s)
    unfolding handles_data
    handles-Safe p none b v = tt
    handles-Safe p (some s) b v = elim (Bool-cases (not (p.protocol == 0))) [
      | inl e ↦ rw e tt
      | inr e ↦ rw e (Gives-and_then F _ _ _ (bytes_at b 0 p.size) (input-Safe p b v) (λ _ _. tt))
    ]

    dump-IsQuiet :
        (p : Packet) (b : Buffer) → p.size ≤ length b.bytes → IsQuiet F (dump_header parse (p, b))
    unfolding dump_header execute
    dump-IsQuiet p b h = IsQuiet-then (IsQuiet-printf _ _) (
        IsQuiet-bind
          (IsQuiet-bind (IsQuiet-lift _ (input-Safe p b h))
            λ input. IsQuiet-then (run_events-IsQuiet (parse input).events) (IsQuiet-ret _))
          λ _. IsQuiet-printf _ _)

    null_payload : (p : Packet) (s : Option Session) → handles_data parse p none s ≡ ok false
    unfolding handles_data
    null_payload p s = refl

    shows : Shows F (λ p o. handles_data parse p o p.session) (dump_header parse)
    shows = record {
      at_null_payload = λ p. null_payload p p.session;
      handles_safe = λ p b h. handles-Safe p p.session b h;
      dump_quiet = λ p b h e. dump-IsQuiet p b h;
    }

    -- The HTTP dissector keeps the contract, for every set of faults, the empty one included.
    pub http-IsLawful : IsLawful F (dissector parse)
    unfolding handles dump decapsulate
    http-IsLawful = Shows-IsLawful_last shows (handles parse) refl (λ _. refl) 7 "http"

-- ===== src/Dissectors/Guard.antt =====
-- What the dissectors have in common: `dump` and `decapsulate` return at once unless `handles` is
-- true, and read the payload after it.
use open_sniffer.Base.{
  ℕ, ◌≡◌, refl, sym, ap, ◌∙◌, ◌≤◌, ◌<◌, ◌^◌, length, String, Bool, true, false, Option, none, some,
  if◌then◌else◌,
}
use open_sniffer.Machine.{Fault, Result, ok, fault, World, M, ◌>>=◌, ret, lift, run, Buffer}
use open_sniffer.Machine.Rules.{Ends, Safe, IsQuiet, OnlyPrints, OnlyPrints-refl}
use open_sniffer.Osi.Packet.{Packet, data_of, data_of-some}
use open_sniffer.Osi.Contract.{IsValidPtr, HandsOver, IsLawful, holds_at}

-- `if (!handles(packet)) return nothing;` and then `body` on the packet and its payload
abbrev pub guarded :
    {A : Type 0} → (Option Packet → Result Bool) → (Packet × Buffer → M A) → A → Option Packet → M A
guarded handles body nothing packet = lift (handles packet) >>= λ supported.
    if supported then lift (data_of packet) >>= body else ret nothing

-- What a dissector must show of valid packets with a payload; `handles_data` is what `handles` does
-- once it has the packet's payload.
pub record Shows (F : Fault → Type 0) (handles_data : Packet → Option Buffer → Result Bool)
    (dump_header : Packet × Buffer → M (Unit {0})) : Type 0 where
  pub at_null_payload : (p : Packet) → handles_data p none ≡ ok false
  pub handles_safe :
      (p : Packet) (b : Buffer) → p.size ≤ length b.bytes → Safe F (handles_data p (some b))
  pub dump_quiet :
      (p : Packet) (b : Buffer)
      → p.size ≤ length b.bytes
      → handles_data p (some b) ≡ ok true
      → IsQuiet F (dump_header (p, b))

module _ {F : Fault → Type 0} {handles_data : Packet → Option Buffer → Result Bool}
    {dump_header : Packet × Buffer → M (Unit {0})} (s : Shows F handles_data dump_header)
    (handles : Option Packet → Result Bool) (at_null : handles none ≡ ok false)
    (at_some : (p : Packet) → handles (some p) ≡ handles_data p p.payload) where
  handles-at :
      (p : Packet) (o : Option Buffer) → p.payload ≡ o → handles (some p) ≡ handles_data p o
  handles-at p o e = at_some p ∙ ap (handles_data p) e

  Shows-handles : (p : Option Packet) → IsValidPtr p → Safe F (handles p)
  Shows-handles none v = rw at_null tt
  Shows-handles (some p) v = go p.payload refl
    where
      go : (o : Option Buffer) → p.payload ≡ o → Safe F (handles (some p))
      go none e = rw (handles-at p none e, s.at_null_payload p) tt
      go (some b) e = rw (handles-at p (some b) e) (s.handles_safe p b (holds_at p b e v))

  -- A property of the guarded body follows from the property of the body.
  Shows-guarded :
      {A : Type 0} (P : Result (A × World) → Type 0) (body : Packet × Buffer → M A) (nothing : A)
      (p : Option Packet) (w : World)
      → ((f : Fault) → F f → P (fault f))
      → P (ok (nothing, w))
      → IsValidPtr p
      → ((q : Packet) (b : Buffer)
          → q.size ≤ length b.bytes
          → q.size < 2 ^ 64
          → handles_data q (some b) ≡ ok true
          → P (body (q, b) w))
      → P (guarded handles body nothing p w)
  unfolding run
  Shows-guarded P body nothing none w bad skip v k = rw at_null skip
  Shows-guarded {A} P body nothing (some p) w bad skip v k =
      asked (handles (some p)) refl (Shows-handles (some p) v)
    where
      asked :
          (r : Result Bool)
          → handles (some p) ≡ r
          → Safe F r
          → P (guarded handles body nothing (some p) w)
      asked (fault f) e h = rw e (bad f h)
      asked (ok false) e h = rw e skip
      asked (ok true) e h = rw e (read p.payload refl)
        where
          read : (o : Option Buffer) → p.payload ≡ o → P ((lift (data_of (some p)) >>= body) w)
          read none x = cc (e, handles-at p none x, s.at_null_payload p)
          read (some b) x =
              rw (data_of-some p b x)
                (k p b (holds_at p b x v) v.size_lt (sym (handles-at p (some b) x) ∙ e))

  Shows-dump : (p : Option Packet) → IsValidPtr p → IsQuiet F (guarded handles dump_header tt p)
  Shows-dump p v = record {
    ends = λ w.
        Shows-guarded (Ends F (λ _ u. OnlyPrints w u)) dump_header tt p w (λ f x. x)
          (OnlyPrints-refl w) v (λ q b h u e. (s.dump_quiet q b h e).ends w);
  }

  -- A dissector that strips its header is lawful.
  pub Shows-IsLawful :
      (layer : ℕ) (name : String) (strip_header : Packet × Buffer → M (Option Packet))
      → ((p : Packet) (b : Buffer) (w : World)
          → p.size ≤ length b.bytes
          → p.size < 2 ^ 64
          → handles_data p (some b) ≡ ok true
          → Ends F (HandsOver w) (strip_header (p, b) w))
      → IsLawful F (record {
        layer = layer;
        operations = record {
          handles = handles;
          dump = guarded handles dump_header tt;
          decapsulate = guarded handles strip_header none;
        };
        name = name;
      })
  Shows-IsLawful layer name strip_header k = record {
    handles_safe = Shows-handles;
    dump_quiet = Shows-dump;
    decapsulate_hands_over = λ p w v.
        Shows-guarded (Ends F (HandsOver w)) strip_header none p w (λ f x. x)
          (record { valid = tt; live_grows = refl; same_output = refl }) v
          (λ q b h u e. k q b w h u e);
  }

  -- A dissector that decapsulates nothing is lawful.
  pub Shows-IsLawful_last :
      (layer : ℕ) (name : String)
      → IsLawful F (record {
        layer = layer;
        operations = record {
          handles = handles;
          dump = guarded handles dump_header tt;
          decapsulate = λ _. ret none;
        };
        name = name;
      })
  unfolding ret
  Shows-IsLawful_last layer name = record {
    handles_safe = Shows-handles;
    dump_quiet = Shows-dump;
    decapsulate_hands_over = λ p w v. record { valid = tt; live_grows = refl; same_output = refl };
  }

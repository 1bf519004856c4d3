-- ===== src/Main/Registered.antt =====
-- src/main.c: the dissectors in the stack that `main` sets up.
use mathlib.Core.List.{append_assoc, append-nil}
use open_sniffer.Osi.Select.{registered, IsLawfulStack}
use open_sniffer.Base.{◌≡◌, refl, sym, ap, ◌∙◌, subst, Bytes, List, [], ◌∷◌, ◌++◌, map, All}
use open_sniffer.Machine.{Fault, out_of_bounds, Arg, World}
use open_sniffer.Machine.Rules.{Ends, Prints}
use open_sniffer.LinkedList.{LinkedList}
use open_sniffer.Osi.Packet.{Packet}
use open_sniffer.Osi.Dissector.{Dissector}
use open_sniffer.Osi.Contract.{IsValid, IsLawful}
use open_sniffer.Osi.Stack.{Stack, stack_new, register_dissector, dump_packet}
use open_sniffer.Osi.Walk.{IsFramed, dump_packet-IsFramed}
use open_sniffer.Dissectors.Http.{Parsed}
use open_sniffer.Dissectors.Ethernet.Lawful.{ethernet-IsLawful}
use open_sniffer.Dissectors.Ip.Lawful.{ip-IsLawful}
use open_sniffer.Dissectors.Arp.Lawful.{arp-IsLawful}
use open_sniffer.Dissectors.Udp.Lawful.{udp-IsLawful}
use open_sniffer.Dissectors.Dhcp.Lawful.{dhcp-IsLawful}
use open_sniffer.Dissectors.Dns.Lawful.{dns-IsLawful}
use open_sniffer.Dissectors.Icmp.Lawful.{icmp-IsLawful}
use open_sniffer.Dissectors.Tcp.Lawful.{tcp-IsLawful}
use open_sniffer.Dissectors.Http.Lawful.{http-IsLawful}
use open_sniffer.Main.{dissectors, register_all, main_stack}

module _ (D : LinkedList Dissector) where
  open D use {element, nodes, elements-push_back, nodes-zeroed}

  -- Registration puts the dissectors behind those that are there, in order.
  pub registered-register_all :
      (ds : List Dissector) (stack : Stack D)
      → registered D (register_all D stack ds) ≡ registered D stack ++ ds
  unfolding register_all register_dissector
  registered-register_all [] stack = sym (append-nil (registered D stack))
  registered-register_all (d ∷ ds) stack =
      registered-register_all ds (register_dissector D stack d)
      ∙ ap (λ t. t ++ ds) (elements-push_back stack.dissectors d)
      ∙ append_assoc (registered D stack) (d ∷ []) ds

  module _ (inet_ntop6 : Bytes → Bytes) (parse : Bytes → Parsed) where
    -- The stack that `main` sets up holds the nine dissectors in the order in which `main` registers
    -- them, and nothing else, for every list library that keeps its laws.
    pub registered-main_stack :
        registered D (main_stack D inet_ntop6 parse) ≡ dissectors inet_ntop6 parse
    unfolding main_stack stack_new
    registered-main_stack =
        registered-register_all (dissectors inet_ntop6 parse) (stack_new D)
        ∙ ap (λ t. map element t ++ dissectors inet_ntop6 parse) nodes-zeroed

    module _ (F : Fault → Type 0) (oob : F out_of_bounds) where
      dissectors-IsLawful : All (IsLawful F) (dissectors inet_ntop6 parse)
      dissectors-IsLawful = (
        ethernet-IsLawful F,
        (
          ip-IsLawful F oob,
          (
            arp-IsLawful F,
            (
              udp-IsLawful F,
              (
                dhcp-IsLawful F oob,
                (
                  dns-IsLawful F oob inet_ntop6,
                  (icmp-IsLawful F oob, (tcp-IsLawful F oob, (http-IsLawful F parse, tt))),
                ),
              ),
            ),
          ),
        ),
      )

      pub main_stack-IsLawful : IsLawfulStack D F (main_stack D inet_ntop6 parse)
      main_stack-IsLawful = subst (All (IsLawful F)) (sym registered-main_stack) dissectors-IsLawful

    -- For every valid packet the dump by the stack of `main` either ends, with every block given
    -- back and its output as the specification says for its nine dissectors, framed by the header
    -- and the footer, or stops at an access outside an array: it never frees a block twice,
    -- dereferences NULL or runs out of rounds.
    pub main_dump-IsFramed :
        (now : Arg) (p : Packet) (w : World)
        → IsValid p
        → Ends
            (λ f. f ≡ out_of_bounds)
            (λ _ v. Prints (IsFramed (dissectors inet_ntop6 parse) now p) w v)
            (dump_packet D now (main_stack D inet_ntop6 parse) p w)
    main_dump-IsFramed now p w valid =
        subst
          (λ ds.
            Ends (λ f. f ≡ out_of_bounds) (λ _ v. Prints (IsFramed ds now p) w v)
              (dump_packet D now (main_stack D inet_ntop6 parse) p w))
          registered-main_stack
          (dump_packet-IsFramed D (λ f. f ≡ out_of_bounds) (main_stack D inet_ntop6 parse)
            (main_stack-IsLawful (λ f. f ≡ out_of_bounds) refl) now p w valid)

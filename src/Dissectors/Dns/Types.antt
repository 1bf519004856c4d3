-- ===== src/Dissectors/Dns/Types.antt =====
-- src/dissectors/dns/dns.c: the table of record types (`ns_types`), keyed by the numbers of
-- arpa/nameser.h.
use open_sniffer.Base.{ℕ, String, List, [], ◌∷◌}
use open_sniffer.Dissectors.Table.{find_value, or_default}

abbrev pub ns_t_a : ℕ
ns_t_a = 1

abbrev pub ns_t_ns : ℕ
ns_t_ns = 2

abbrev pub ns_t_cname : ℕ
ns_t_cname = 5

abbrev pub ns_t_aaaa : ℕ
ns_t_aaaa = 28

-- `ns_types`
abbrev pub ns_types : List (ℕ × String)
ns_types =
    (0, "Invalid")
    ∷ (1, "A")
    ∷ (2, "NS")
    ∷ (3, "MD")
    ∷ (4, "MF")
    ∷ (5, "CNAME")
    ∷ (6, "SOA")
    ∷ (7, "MB")
    ∷ (8, "MG")
    ∷ (9, "MR")
    ∷ (10, "NULL")
    ∷ (11, "WKS")
    ∷ (12, "PTR")
    ∷ (13, "HINFO")
    ∷ (14, "MINFO")
    ∷ (15, "MX")
    ∷ (16, "TXT")
    ∷ (17, "RP")
    ∷ (18, "AFSDB")
    ∷ (19, "X25")
    ∷ (20, "ISDN")
    ∷ (21, "RT")
    ∷ (22, "NSAP")
    ∷ (23, "NSAP_PTR")
    ∷ (24, "SIG")
    ∷ (25, "KEY")
    ∷ (26, "PX")
    ∷ (27, "GPOS")
    ∷ (28, "AAAA")
    ∷ (29, "LOC")
    ∷ (30, "NXT")
    ∷ (31, "EID")
    ∷ (32, "NIMLOC")
    ∷ (33, "SRV")
    ∷ (34, "ATMA")
    ∷ (35, "NAPTR")
    ∷ (36, "KX")
    ∷ (37, "CERT")
    ∷ (38, "A6")
    ∷ (39, "DNAME")
    ∷ (40, "SINK")
    ∷ (41, "OPT")
    ∷ (42, "APL")
    ∷ (249, "TKEY")
    ∷ (250, "TSIG")
    ∷ (251, "IXFR")
    ∷ (252, "AXFR")
    ∷ (253, "MAILB")
    ∷ (254, "MAILA")
    ∷ (255, "ANY")
    ∷ (256, "ZXFR")
    ∷ (65536, "MAX")
    ∷ []

-- `dns_dissector_type_to_string`: `ns_types[0].value` where no entry fits.
unfoldable pub type_to_string : ℕ → String
unfolding find_value
type_to_string type = or_default (find_value type ns_types) "Invalid"

-- ===== src/Dns/Tests.antt =====
-- kernel/dns.cpp on a small answer.
use sabaka_os.Common.{
  ℕ, ◌<◌, ◌≡◌, refl, List, [], ◌∷◌, ◌++◌, some, false, arith, get_or, if◌then◌else◌, ltb,
}
use sabaka_os.KString.Text.{CString}
use sabaka_os.Dns.Names.{
  decoded, malformed, encode_name, encode_loop, label, decode_name, decode_loop, decode_round,
}
use sabaka_os.Dns.Response.{address, parse_response, question_loop, answer_loop}
use sabaka_os.Dns.Cache.{DnsCacheEntry, cache_lookup, cache_store, lookup_loop, slot_loop}
use sabaka_os.Dns.Query.{ip_from_str, octets, read_octet}
use sabaka_os.Dns.Decode.{Decodes, decode_name-Decodes}
use sabaka_os.Dns.Reads.{parse_response-same}
use sabaka_os.Dns.Lookup.{cache_lookup-cache_store}

-- "a.bc"
abbrev host : CString
host = b'a' ∷ b'.' ∷ b'b' ∷ b'c' ∷ []

abbrev wire : List ℕ
wire = 1 ∷ b'a' ∷ 2 ∷ b'b' ∷ b'c' ∷ 0 ∷ []

encodes : encode_name host ≡ some wire
unfolding encode_name encode_loop label
encodes = refl

-- An answer with one question, and one record, whose name points to that of the question.
abbrev reply : List ℕ
reply =
    0
    ∷ 0
    ∷ 0x81
    ∷ 0x80
    ∷ 0
    ∷ 1
    ∷ 0
    ∷ 1
    ∷ 0
    ∷ 0
    ∷ 0
    ∷ 0
    ∷ (wire
        ++ (0 ∷ 1 ∷ 0 ∷ 1 ∷ 0xC0 ∷ 12 ∷ 0 ∷ 1 ∷ 0 ∷ 1 ∷ 0 ∷ 0 ∷ 0 ∷ 60 ∷ 0 ∷ 4 ∷ 10 ∷ 0 ∷ 2 ∷ 15
            ∷ []))

abbrev packet : ℕ → ℕ
packet i = get_or reply i 0

abbrev longer : ℕ → ℕ
longer i = if ltb i 38 then packet i else 7

decodes_name : decode_name packet 38 12 254 ≡ decoded 18 host
unfolding decode_name decode_loop decode_round
decodes_name = refl

decode_name-Decodes_example : Decodes 38 254 (decode_name packet 38 22 254)
decode_name-Decodes_example = decode_name-Decodes packet 38 22 254 (omega arith)

finds_address :
    parse_response packet 38
    ≡ address (ip_from_str (b'1' ∷ b'0' ∷ b'.' ∷ b'0' ∷ b'.' ∷ b'2' ∷ b'.' ∷ b'1' ∷ b'5' ∷ []))
unfolding parse_response question_loop answer_loop decode_name decode_loop decode_round ip_from_str
    octets read_octet
finds_address = refl

-- A name that points to itself.
loops : decode_name (λ i. if ltb i 1 then 0xC0 else 0) 38 0 254 ≡ malformed
unfolding decode_name decode_loop decode_round
loops = refl

same_inside : (i : ℕ) → i < 38 → packet i ≡ longer i
same_inside i l = ground arith

parse_response-same_example : parse_response packet 38 ≡ parse_response longer 38
parse_response-same_example = parse_response-same 38 packet longer same_inside

abbrev empty : ℕ → DnsCacheEntry
empty i = record { name = []; ip = 0; ttl_deadline_ms = 0; valid = false }

cache_lookup-cache_store_example :
    ((cache_lookup 61499 host (cache_store 1500 empty host 42 60)).1 ≡ some 0)
    × (((cache_lookup 61499 host (cache_store 1500 empty host 42 60)).0 0).ip ≡ 42)
unfolding cache_lookup lookup_loop slot_loop
cache_lookup-cache_store_example =
    cache_lookup-cache_store 1000 1500 61499 host 42 60 empty empty refl (omega arith) (omega arith)
      (omega arith)

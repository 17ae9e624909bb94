-- ===== src/Dns/Response.antt =====
-- kernel/dns.cpp, parse_response.
use Prim.Native.Nat.{bit_and}
use sabaka_os.Common.{
  not, ℕ, zero, suc, ◌+◌, ◌*◌, ◌/◌, ◌%◌, true, false, ◌&&◌, ltb, leb, ◌==◌, if◌then◌else◌,
}
use sabaka_os.Common.Words.{u16}
use sabaka_os.Tcp.Receive.{be16, be32}
use sabaka_os.Dns.Names.{Decoded, decoded, malformed, out_of_fuel, decode_name, dns_max_name}

-- `sizeof(DnsHeader)`
abbrev pub sizeof_dns_header : ℕ
sizeof_dns_header = 12

abbrev pub dns_rcode_mask : ℕ
dns_rcode_mask = 0x000F

abbrev pub dns_type_a : ℕ
dns_type_a = 1

-- `htonl`, and `ntohl`: the bytes of a word in the other order.
abbrev pub htonl : ℕ → ℕ
htonl v = v / 16777216 % 256 + v / 65536 % 256 * 256 + v / 256 % 256 * 65536 + v % 256 * 16777216

-- An address, or 0; or a lack of fuel.
pub data Answer : Type 0 where
  address : ℕ → Answer
  no_fuel : Answer

abbrev pub no_address : Answer
no_address = address 0

-- The name at a position, as all of parse_response decodes names.
abbrev pub name_at : (ℕ → ℕ) → ℕ → ℕ → Decoded
name_at pkt pkt_len pos = decode_name pkt pkt_len pos (dns_max_name + 1)

-- A record after its name: the address, if it is one of type A, or where the next record starts.
pub data Record : Type 0 where
  stops : Answer → Record
  next_record : ℕ → Record

abbrev pub read_record : (ℕ → ℕ) → ℕ → ℕ → Record
read_record pkt pkt_len pos =
    let rtype = be16 pkt pos in
    let rdlen = be16 pkt (pos + 8) in
    let data_pos = u16 (pos + 10) in
    if ltb pkt_len (pos + 10)
    then stops no_address
    else if ltb pkt_len (data_pos + rdlen)
    then stops no_address
    else if rtype == dns_type_a && rdlen == 4
    then stops (address (htonl (be32 pkt data_pos)))
    else next_record (u16 (data_pos + rdlen))

-- The second loop of parse_response, over the records of the answer.
unfoldable pub answer_loop : (ℕ → ℕ) → ℕ → ℕ → ℕ → Answer
answer_loop pkt pkt_len zero pos = no_address
answer_loop pkt pkt_len (suc n) pos = elim (leb pkt_len pos) [
  | true ↦ no_address
  | false ↦ elim (name_at pkt pkt_len pos) [
    | malformed ↦ no_address
    | out_of_fuel ↦ no_fuel
    | decoded next name ↦ elim (read_record pkt pkt_len (u16 next)) [
      | stops r ↦ r
      | next_record pos' ↦ answer_loop pkt pkt_len n pos'
    ]
  ]
]

-- The first loop, over the questions, and the rest.
unfoldable pub question_loop : (ℕ → ℕ) → (pkt_len ancount n pos : ℕ) → Answer
question_loop pkt pkt_len ancount zero pos = answer_loop pkt pkt_len ancount pos
question_loop pkt pkt_len ancount (suc n) pos = elim (name_at pkt pkt_len pos) [
  | malformed ↦ no_address
  | out_of_fuel ↦ no_fuel
  | decoded next name ↦ elim (ltb pkt_len (u16 (u16 next + 4))) [
    | true ↦ no_address
    | false ↦ question_loop pkt pkt_len ancount n (u16 (u16 next + 4))
  ]
]

unfoldable pub parse_response : (ℕ → ℕ) → ℕ → Answer
parse_response pkt pkt_len =
    let rcode = bit_and (be16 pkt 2) dns_rcode_mask in
    let qdcount = be16 pkt 4 in
    let ancount = be16 pkt 6 in
    if ltb pkt_len sizeof_dns_header
    then no_address
    else if not (rcode == 0)
    then no_address
    else if ancount == 0
    then no_address
    else question_loop pkt pkt_len ancount qdcount sizeof_dns_header

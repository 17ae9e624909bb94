-- ===== src/Dns/Query.antt =====
-- kernel/dns.cpp, dns_resolve, and ip_from_str of kernel/net.cpp.
use sabaka_os.Common.{
  ℕ, zero, suc, ◌+◌, ◌-◌, ◌*◌, ◌/◌, ◌%◌, List, [], ◌∷◌, ◌++◌, Option, none, some, Bool, true, false,
  not, ◌&&◌, ◌||◌, ltb, leb, ◌==◌, if◌then◌else◌,
}
use sabaka_os.Common.Words.{u16, u32}
use sabaka_os.KString.Text.{CString}
use sabaka_os.UdpHandlers.{Handlers, net_udp_register, dns_udp_callback}
use sabaka_os.Dns.Names.{encode_name}
use sabaka_os.Dns.Response.{Answer, address, no_fuel, parse_response, htonl}
use sabaka_os.Dns.Cache.{Dns, cache_lookup, cache_store}

abbrev pub dns_port : ℕ
dns_port = 53

abbrev pub dns_max_retries : ℕ
dns_max_retries = 3

abbrev pub is_digit : ℕ → Bool
is_digit c = leb b'0' c && leb c b'9'

-- `while (*s >= '0' && *s <= '9') o = o * 10 + (*s++ - '0');`
unfoldable pub read_octet : CString → ℕ → ℕ × CString
read_octet [] o = (o, [])
read_octet (c ∷ s) o =
    let rest = read_octet s (u32 (o * 10 + (c - b'0'))) in if is_digit c then rest else (o, c ∷ s)

-- `if (*s == '.') s++;`
abbrev pub past_dot : CString → CString
past_dot [] = []
past_dot (c ∷ s) = if c == b'.' then s else c ∷ s

unfoldable pub octets : ℕ → CString → ℕ → ℕ
octets zero s r = r
octets (suc n) s r =
    let (o, rest) = read_octet s 0 in octets n (past_dot rest) (u32 (r * 256 + o % 256))

unfoldable pub ip_from_str : CString → ℕ
ip_from_str s = htonl (octets 4 s 0)

-- The loop by which dns_resolve tells an address from a name: the count of dots, `none` for a name.
unfoldable pub count_dots : CString → ℕ → Option ℕ
count_dots [] dots = some dots
count_dots (c ∷ s) dots =
    let rest = count_dots s (if c == b'.' then dots + 1 else dots) in
    if c == b'.' || is_digit c then rest else none

abbrev pub looks_like_ip : CString → Bool
looks_like_ip s = elim (count_dots s 0) [ none ↦ false | some dots ↦ dots == 3 ]

abbrev pub bytes16 : ℕ → List ℕ
bytes16 v = v / 256 % 256 ∷ v % 256 ∷ []

-- The query, from the header on; `none` is a lack of fuel for the name.
unfoldable pub query : ℕ → CString → Option (List ℕ)
query qid hostname = elim (encode_name hostname) [
  | none ↦ none
  | some name ↦ some (
      bytes16 qid
      ++ (bytes16 0x100 ++ (bytes16 1 ++ (0 ∷ 0 ∷ 0 ∷ 0 ∷ 0 ∷ 0 ∷ (name ++ (0 ∷ 1 ∷ 0 ∷ 1 ∷ []))))))
]

-- A datagram that is sent.
pub record Datagram : Type 0 where
  pub dst_ip : ℕ
  pub src_port : ℕ
  pub dst_port : ℕ
  pub payload : List ℕ

-- The loop over the attempts. `during attempt` is what happens to the resolver while it waits.
unfoldable pub attempt_loop :
    (ℕ → Dns → Dns)
    → ℕ
    → List ℕ
    → (n attempt : ℕ) → Dns
    → List Datagram
    → Dns × Answer × List Datagram
attempt_loop during qid pkt zero attempt st sent = (st, address 0, sent)
attempt_loop during qid pkt (suc n) attempt st sent =
    let asked = record st { resp_len = 0; wait_id = qid; waiting = true } in
    let datagram : Datagram = record {
      dst_ip = st.dns_server;
      src_port = u16 (dns_port + 1 + attempt);
      dst_port = dns_port;
      payload = pkt;
    } in
    let st' = during attempt asked in
    elim (not st'.waiting && ltb 0 st'.resp_len) [
      | true ↦ (st', parse_response st'.resp_buf st'.resp_len, sent ++ (datagram ∷ []))
      | false ↦ attempt_loop during qid pkt n (attempt + 1) st' (sent ++ (datagram ∷ []))
    ]

-- What dns_resolve leaves and returns: the resolver, the table of handlers, the address, and what
-- it sent. `now` is the time at the start, and `later` that at which the answer is stored.
pub record Resolution : Type 0 where
  pub dns : Dns
  pub handlers : Handlers
  pub ip : Answer
  pub sent : List Datagram

abbrev pub stored_answer : ℕ → CString → Answer → Dns → Dns
stored_answer later hostname no_fuel st = st
stored_answer later hostname (address ip) st =
    if ip == 0 then st else record st { cache = cache_store later st.cache hostname ip 60 }

-- dns_resolve after the cache does not help.
unfoldable pub ask_server : (ℕ → Dns → Dns) → (later : ℕ) → Dns → Handlers → CString → Resolution
ask_server during later st hs hostname =
    let hs' = net_udp_register hs dns_port (some dns_udp_callback) in
    let st' = record st { next_id = u16 (st.next_id + 1) } in
    elim (query st.next_id hostname) [
      | none ↦ record { dns = st'; handlers = hs'; ip = no_fuel; sent = [] }
      | some pkt ↦
          let (st2, ip, sent) = attempt_loop during st.next_id pkt dns_max_retries 0 st' [] in
          let st3 = record st2 { waiting = false } in
          record { dns = stored_answer later hostname ip st3; handlers = hs'; ip = ip; sent = sent }
    ]

unfoldable pub dns_resolve :
    (ℕ → Dns → Dns) → (now later : ℕ) → Dns → Handlers → CString → Resolution
dns_resolve during now later st hs [] = record {
  dns = st;
  handlers = hs;
  ip = address 0;
  sent = [];
}
dns_resolve during now later st hs (c ∷ s) =
    let (cache, found) = cache_lookup now (c ∷ s) st.cache in
    let st' = record st { cache = cache } in
    elim (looks_like_ip (c ∷ s)) [
      | true ↦ record { dns = st; handlers = hs; ip = address (ip_from_str (c ∷ s)); sent = [] }
      | false ↦ elim found [
        | some i ↦ record { dns = st'; handlers = hs; ip = address (cache i).ip; sent = [] }
        | none ↦ elim (st.dns_server == 0) [
          | true ↦ record { dns = st'; handlers = hs; ip = address 0; sent = [] }
          | false ↦ ask_server during later st' hs (c ∷ s)
        ]
      ]
    ]

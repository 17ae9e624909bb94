-- ===== src/Dns/Cache.antt =====
-- kernel/dns.cpp: the cache of names, and what a datagram from the server does.
use sabaka_os.Common.{
  ℕ, zero, suc, ◌+◌, ◌*◌, Option, none, some, Bool, true, false, not, ◌&&◌, ◌||◌, ltb, leb, ◌==◌,
  if◌then◌else◌, update, take, count_below,
}
use sabaka_os.Common.Words.{add32}
use Prim.Native.Nat.{bit_and}
use sabaka_os.KString.Text.{CString, kstrcmp}
use sabaka_os.KString.Memory.{copy_into}
use sabaka_os.EnvVars.{is_zero}
use sabaka_os.Tcp.Receive.{be16}
use sabaka_os.Dns.Names.{dns_max_name}
use sabaka_os.Dns.Response.{sizeof_dns_header}

abbrev pub dns_cache_size : ℕ
dns_cache_size = 16

pub record DnsCacheEntry : Type 0 where
  pub name : CString
  pub ip : ℕ
  pub ttl_deadline_ms : ℕ
  pub valid : Bool

pub record Dns : Type 0 where
  pub dns_server : ℕ  -- s_dns_server
  pub next_id : ℕ  -- s_next_id
  pub cache : ℕ → DnsCacheEntry  -- s_cache
  pub waiting : Bool  -- s_waiting
  pub wait_id : ℕ  -- s_wait_id
  pub resp_buf : ℕ → ℕ  -- s_resp_buf
  pub resp_len : ℕ  -- s_resp_len

abbrev pub flushed : (ℕ → DnsCacheEntry) → ℕ → DnsCacheEntry
flushed cache i = if ltb i dns_cache_size then record (cache i) { valid = false } else cache i

unfoldable pub dns_init : Dns → ℕ → Dns
dns_init st server_ip = record st {
  dns_server = server_ip;
  next_id = 0x1337;
  cache = flushed st.cache;
}

unfoldable pub dns_cache_flush : Dns → Dns
dns_cache_flush st = record st { cache = flushed st.cache }

-- `s_cache[i].valid && now < s_cache[i].ttl_deadline_ms`
abbrev pub is_live : ℕ → DnsCacheEntry → Bool
is_live now e = e.valid && ltb now e.ttl_deadline_ms

-- The loop of cache_lookup over `n` entries from `i` on, which marks those that it finds to be out
-- of date.
unfoldable pub lookup_loop :
    ℕ → CString → ℕ → ℕ → (ℕ → DnsCacheEntry) → (ℕ → DnsCacheEntry) × Option ℕ
lookup_loop now name zero i cache = (cache, none)
lookup_loop now name (suc n) i cache =
    let e = cache i in
    let cache' =
      if e.valid && leb e.ttl_deadline_ms now
      then update cache i (record e { valid = false })
      else cache in
    let rest = lookup_loop now name n (i + 1) cache' in
    if is_live now e && is_zero (kstrcmp e.name name) then (cache, some i) else rest

-- The entry that cache_lookup finds.
unfoldable pub cache_lookup : ℕ → CString → (ℕ → DnsCacheEntry) → (ℕ → DnsCacheEntry) × Option ℕ
cache_lookup now name cache = lookup_loop now name dns_cache_size 0 cache

-- The loop of cache_store: the first entry that is not valid, or else that with the least deadline.
unfoldable pub slot_loop : (ℕ → DnsCacheEntry) → ℕ → ℕ → (slot oldest : ℕ) → ℕ
slot_loop cache zero i slot oldest = slot
slot_loop cache (suc n) i slot oldest =
    let e = cache i in
    let older = ltb e.ttl_deadline_ms oldest in
    let rest =
      slot_loop cache n (i + 1) (if older then i else slot)
        (if older then e.ttl_deadline_ms else oldest) in
    if not e.valid then i else rest

-- `if (ttl_sec < 30) ttl_sec = 30; if (ttl_sec > 300) ttl_sec = 300;`
abbrev pub bounded_ttl : ℕ → ℕ
bounded_ttl ttl = let low = if ltb ttl 30 then 30 else ttl in if ltb 300 low then 300 else low

unfoldable pub cache_store :
    ℕ → (ℕ → DnsCacheEntry) → CString → (ip ttl_sec : ℕ) → ℕ → DnsCacheEntry
cache_store now cache name ip ttl_sec =
    update cache (slot_loop cache dns_cache_size 0 0 0xFFFFFFFF) (record {
      name = take dns_max_name name;
      ip = ip;
      ttl_deadline_ms = add32 now (bounded_ttl ttl_sec * 1000);
      valid = true;
    })

unfoldable pub dns_cache_count : ℕ → (ℕ → DnsCacheEntry) → ℕ
dns_cache_count now cache = count_below (λ i. is_live now (cache i)) dns_cache_size

-- `none` is a null pointer. An index below 0 is not modelled.
unfoldable pub dns_cache_get : (ℕ → DnsCacheEntry) → ℕ → Option DnsCacheEntry
dns_cache_get cache i = if leb dns_cache_size i then none else some (cache i)

-- A datagram from `src_ip`.
unfoldable pub dns_callback : Dns → ℕ → (ℕ → ℕ) → ℕ → Dns
dns_callback st src_ip packet len =
    let taken = record st {
      resp_buf = copy_into st.resp_buf 0 packet 0 len;
      resp_len = len;
      waiting = false;
    } in
    if not (src_ip == st.dns_server)
    then st
    else if not st.waiting
    then st
    else if ltb len sizeof_dns_header || ltb 512 len
    then st
    else if not (be16 packet 0 == st.wait_id)
    then st
    else if bit_and (be16 packet 2) 0x8000 == 0
    then st
    else taken

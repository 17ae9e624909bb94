-- ===== src/Dns/Lookup.antt =====
-- kernel/dns.cpp, cache_lookup and cache_store: what is stored is found until its deadline.
use sabaka_os.Common.{
  [], ◌∷◌, ◌∷◌, ℕ, zero, suc, ◌+◌, ◌*◌, ◌%◌, ◌≤◌, ◌<◌, ◌≡◌, ◌≢◌, refl, ◌∙◌, sym, ap, subst, Option,
  none, some, Bool, true, false, not, ◌&&◌, ltb, leb, ◌==◌, if◌then◌else◌, length, take, update,
  update_self, update_ne, arith, inl, inr, Bool-cases,
}
use sabaka_os.Common.Words.{add32}
use sabaka_os.KString.Text.{CString, kstrcmp}
use sabaka_os.KString.Compare.{kstrcmp_self}
use sabaka_os.EnvVars.{is_zero}
use sabaka_os.Dns.Names.{dns_max_name}
use sabaka_os.Dns.Cache.{
  DnsCacheEntry, is_live, lookup_loop, cache_lookup, slot_loop, cache_store, bounded_ttl,
  dns_cache_size,
}

abbrev is_named : CString → DnsCacheEntry → Bool
is_named name e = is_zero (kstrcmp e.name name)

abbrev unmarked : ℕ → (ℕ → DnsCacheEntry) → ℕ → ℕ → DnsCacheEntry
unmarked now cache i =
    if (cache i).valid && leb (cache i).ttl_deadline_ms now
    then update cache i (record (cache i) { valid = false })
    else cache

pass-by :
    {A : Type 0} (b : Bool) (x : A × Option ℕ) (c : A) (k : ℕ) (c' : A)
    → (if b then (c, some k) else x) ≡ (c', none)
    → (b ≡ false) × (x ≡ (c', none))
pass-by true x c k c' e = absurd (cc (ap (λ (p : _ × Option ℕ). p.1) e))
pass-by false x c k c' e = (refl, e)

unmarked-other :
    (now : ℕ) (cache : ℕ → DnsCacheEntry) (i j : ℕ) → i ≢ j → unmarked now cache i j ≡ cache j
unmarked-other now cache i j n =
    elim (Bool-cases ((cache i).valid && leb (cache i).ttl_deadline_ms now)) [
      | inl e ↦ rw e (update_ne cache i j _ n)
      | inr e ↦ rw e refl
    ]

alive :
    (v n : Bool) (d now : ℕ)
    → (v && leb d now) ≡ false
    → ((v && ltb now d) && n) ≡ false
    → (v && n) ≡ false
alive false n d now e f = refl
alive true n d now e f = let l : ltb now d ≡ true = ground arith in rw (← f, l) refl

not_live : (v n l : Bool) → (v && n) ≡ false → ((v && l) && n) ≡ false
not_live false n l e = refl
not_live true true l e = absurd (cc)
not_live true false true e = refl
not_live true false false e = refl

-- An entry that the search passes by is not valid, or has another name.
passed :
    (now : ℕ) (name : CString) (cache : ℕ → DnsCacheEntry) (i : ℕ)
    → (is_live now (cache i) && is_named name (cache i)) ≡ false
    → ((unmarked now cache i i).valid && is_named name (unmarked now cache i i)) ≡ false
passed now name cache i f =
    elim (Bool-cases ((cache i).valid && leb (cache i).ttl_deadline_ms now)) [
      | inl e ↦ rw (e, update_self cache i (record (cache i) { valid = false })) refl
      | inr e ↦
          rw e (alive (cache i).valid (is_named name (cache i)) (cache i).ttl_deadline_ms now e f)
    ]

lookup_loop-none :
    (now : ℕ) (name : CString) (n i : ℕ) (cache cache' : ℕ → DnsCacheEntry)
    → lookup_loop now name n i cache ≡ (cache', none)
    → ((j : ℕ) → j < i → cache' j ≡ cache j)
      × ((j : ℕ) → i ≤ j → j < i + n → ((cache' j).valid && is_named name (cache' j)) ≡ false)
unfolding lookup_loop
lookup_loop-none now name zero i cache cache' e = (
  λ j l. ap (λ (p : (ℕ → DnsCacheEntry) × Option ℕ). p.0 j) (sym e),
  λ j a b. absurd (omega arith),
)
lookup_loop-none now name (suc n) i cache cache' e =
    let both = pass-by (is_live now (cache i) && is_named name (cache i)) _ cache i cache' e in
    let rest = lookup_loop-none now name n (i + 1) (unmarked now cache i) cache' both.1 in
    (
      λ j l. rest.0 j (omega arith) ∙ unmarked-other now cache i j (omega arith),
      λ j a b. elim (Bool-cases (i == j)) [
        | inl here ↦
            let e' : i ≡ j = ground arith in
            let same : cache' i ≡ unmarked now cache i i = rest.0 i (omega arith) in
            subst (λ k. ((cache' k).valid && is_named name (cache' k)) ≡ false) e'
              (ap (λ (x : DnsCacheEntry). x.valid && is_named name x) same
                ∙ passed now name cache i both.0)
        | inr other ↦ rest.1 j (ground arith) (omega arith)
      ],
    )

-- The search finds the one valid entry of the name.
lookup_loop-finds :
    (now : ℕ) (name : CString) (n i slot : ℕ) (cache : ℕ → DnsCacheEntry)
    → i ≤ slot
    → slot < i + n
    → (is_live now (cache slot) && is_named name (cache slot)) ≡ true
    → ((j : ℕ)
        → i ≤ j
        → j < i + n
        → j ≢ slot
        → ((cache j).valid && is_named name (cache j)) ≡ false)
    → ((lookup_loop now name n i cache).1 ≡ some slot)
      × ((lookup_loop now name n i cache).0 slot ≡ cache slot)
unfolding lookup_loop
lookup_loop-finds now name zero i slot cache a b f u = absurd (omega arith)
lookup_loop-finds now name (suc n) i slot cache a b f u = elim (Bool-cases (i == slot)) [
  | inl here ↦
      let e : i ≡ slot = ground arith in
      let now_found : (is_live now (cache i) && is_named name (cache i)) ≡ true =
        subst (λ k. (is_live now (cache k) && is_named name (cache k)) ≡ true) (sym e) f in
      (rw now_found (ap some e), rw now_found refl)
  | inr other ↦
      let ne : i ≢ slot = ground arith in
      let on : (is_live now (cache i) && is_named name (cache i)) ≡ false =
        not_live (cache i).valid (is_named name (cache i)) (ltb now (cache i).ttl_deadline_ms)
          (u i (omega arith) (omega arith) ne) in
      let kept : unmarked now cache i slot ≡ cache slot = unmarked-other now cache i slot ne in
      let rest =
        lookup_loop-finds now name n (i + 1) slot (unmarked now cache i) (omega arith) (omega arith)
          (ap (λ (x : DnsCacheEntry). is_live now x && is_named name x) kept ∙ f)
          (λ j a' b' n'.
            ap (λ (x : DnsCacheEntry). x.valid && is_named name x)
              (unmarked-other now cache i j (omega arith))
            ∙ u j (omega arith) (omega arith) n') in
      (rw on rest.0, rw on (rest.1 ∙ kept))
]

slot_loop-lt :
    (cache : ℕ → DnsCacheEntry) (n i slot oldest : ℕ)
    → slot < i + n
    → slot_loop cache n i slot oldest < i + n
unfolding slot_loop
slot_loop-lt cache zero i slot oldest l = l
slot_loop-lt cache (suc n) i slot oldest l = elim (Bool-cases (not (cache i).valid)) [
  | inl free ↦ rw free (omega arith)
  | inr taken ↦ rw taken (next n i slot oldest l (slot_loop-lt cache n (i + 1)))
]
  where
    next :
        (n i slot oldest : ℕ)
        → slot < i + suc n
        → ((slot' oldest' : ℕ)
            → slot' < i + 1 + n
            → slot_loop cache n (i + 1) slot' oldest' < i + 1 + n)
        → slot_loop cache n
            (i + 1)
            (if ltb (cache i).ttl_deadline_ms oldest then i else slot)
            (if ltb (cache i).ttl_deadline_ms oldest then (cache i).ttl_deadline_ms else oldest)
          < i + suc n
    next n i slot oldest l rec =
        let inside : (if ltb (cache i).ttl_deadline_ms oldest then i else slot) < i + 1 + n =
          ground arith in
        omega (
          arith,
          rec (if ltb (cache i).ttl_deadline_ms oldest then i else slot)
              (if ltb (cache i).ttl_deadline_ms oldest then (cache i).ttl_deadline_ms else oldest)
              inside,
        )

take_all : (n : ℕ) (s : CString) → length s ≤ n → take n s ≡ s
take_all zero [] l = refl
take_all zero (c ∷ s) l = absurd (omega arith)
take_all (suc n) [] l = refl
take_all (suc n) (c ∷ s) l = ap (λ (t : CString). c ∷ t) (take_all n s (omega arith))

-- An address that is stored, at whatever time, once cache_lookup has not found its name, which is
-- not longer than 253 bytes, is what cache_lookup finds under that name at every time before the
-- deadline of the entry, where the deadline does not wrap.
pub cache_lookup-cache_store :
    (now later now' : ℕ) (name : CString) (ip ttl : ℕ) (cache cache' : ℕ → DnsCacheEntry)
    → cache_lookup now name cache ≡ (cache', none)
    → length name ≤ dns_max_name
    → later + bounded_ttl ttl * 1000 < 4294967296
    → now' < later + bounded_ttl ttl * 1000
    → ((cache_lookup now' name (cache_store later cache' name ip ttl)).1
        ≡ some (slot_loop cache' dns_cache_size 0 0 0xFFFFFFFF))
      × (((cache_lookup now' name (cache_store later cache' name ip ttl)).0
            (slot_loop cache' dns_cache_size 0 0 0xFFFFFFFF)).ip
          ≡ ip)
unfolding cache_lookup cache_store
cache_lookup-cache_store now later now' name ip ttl cache cache' e l w t =
    let slot : ℕ = slot_loop cache' 16 0 0 0xFFFFFFFF in
    let entry : DnsCacheEntry = record {
      name = take 253 name;
      ip = ip;
      ttl_deadline_ms = add32 later (bounded_ttl ttl * 1000);
      valid = true;
    } in
    let here : update cache' slot entry slot ≡ entry = update_self cache' slot entry in
    let deadline : (later + bounded_ttl ttl * 1000) % 4294967296 ≡ later + bounded_ttl ttl * 1000 =
      omega arith in
    let none_left = lookup_loop-none now name 16 0 cache cache' e in
    let in_time : ltb now' (later + bounded_ttl ttl * 1000) ≡ true = ground arith in
    let fits : (is_live now' entry && is_named name entry) ≡ true =
      rw (deadline, in_time, take_all 253 name l, kstrcmp_self name) refl in
    let finds =
      lookup_loop-finds now' name 16 0 slot (update cache' slot entry) (omega arith)
        (slot_loop-lt cache' 16 0 0 0xFFFFFFFF (omega arith))
        (ap (λ (x : DnsCacheEntry). is_live now' x && is_named name x) here ∙ fits)
        (λ j a b n.
          ap (λ (x : DnsCacheEntry). x.valid && is_named name x)
            (update_ne cache' slot j entry (omega arith))
          ∙ none_left.1 j a b) in
    (finds.0, ap (λ (x : DnsCacheEntry). x.ip) (finds.1 ∙ here))

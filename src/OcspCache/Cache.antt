-- ===== src/OcspCache/Cache.antt =====
-- cache.go: the cache and its operations. `digest` stands for the hexadecimal SHA-256 of a
-- certificate; the clock is an argument.
use qoltanba.Prelude.{
  ℕ, zero, suc, ◌+◌, ◌*◌, ◌%◌, ◌^◌, ltb, leb, if◌then◌else◌, Bool, not, Option, none, some, [], ◌∷◌,
  ◌++◌, Text, is_empty, Map, lookup, insert, delete, delete_if, length,
}

-- `Config`; a number that is not positive is 0
pub record Config : Type 0 where
  pub ttl : ℕ
  pub revoked_ttl : ℕ
  pub max_entries : ℕ

-- `Entry`: an answer
pub record Entry : Type 0 where
  pub revoked : Bool
  pub reason : Text
  pub revocation_time : Option ℕ
  pub this_update : Option ℕ
  pub next_update : Option ℕ
  pub produced_at : Option ℕ
  pub response : Text

-- `entry`: an answer with its end and its place in the order of insertion
pub record CachedEntry : Type 0 where
  pub value : Entry
  pub expires : ℕ
  pub seq : ℕ

pub record Cache : Type 0 where
  pub cfg : Config
  pub entries : Map CachedEntry
  pub seq : ℕ
  pub hits : ℕ
  pub misses : ℕ
  pub stapled : ℕ

abbrev second : ℕ
second = 1000000000

abbrev pub default_config : Config → Config
default_config c = record {
  ttl = if ltb 0 c.ttl then c.ttl else 600 * second;
  revoked_ttl = if ltb 0 c.revoked_ttl then c.revoked_ttl else 86400 * second;
  max_entries = if ltb 0 c.max_entries then c.max_entries else 4096;
}

-- `New`
unfoldable pub new : Config → Cache
new c = record { cfg = default_config c; entries = []; seq = 0; hits = 0; misses = 0; stapled = 0 }

-- the loop that finds the oldest entry; the empty key that Go starts from is `none`
unfoldable pub oldest : Map CachedEntry → Option (Text × ℕ) → Option (Text × ℕ)
oldest [] best = best
oldest ((k, e) ∷ m) none = oldest m (some (k, e.seq))
oldest ((k, e) ∷ m) (some (b, t)) = oldest m (some (if ltb e.seq t then (k, e.seq) else (b, t)))

abbrev pub key_of : Option (Text × ℕ) → Text
key_of none = []
key_of (some (k, t)) = k

-- the second loop of `evictLocked`, on fuel
unfoldable pub evict_down : ℕ → ℕ → Map CachedEntry → Map CachedEntry
unfolding delete oldest
evict_down zero bound m = m
evict_down (suc n) bound m =
    let rest = evict_down n bound (delete (key_of (oldest m none)) m) in
    if ltb bound (length m) then rest else m

unfoldable pub is_stale : ℕ → CachedEntry → Bool
is_stale now e = not (ltb now e.expires)

-- `evictLocked`
unfoldable pub evict : ℕ → ℕ → Map CachedEntry → Map CachedEntry
unfolding is_stale delete_if evict_down
evict bound now m =
    if leb (length m) bound
    then m
    else let live = delete_if (is_stale now) m in evict_down (length live) bound live

-- when an answer that comes in now expires
unfoldable pub expiry : Config → Entry → ℕ → ℕ
expiry cfg v now =
    let expires = now + (if v.revoked then cfg.revoked_ttl else cfg.ttl) in
    elim v.next_update [ none ↦ expires | some nu ↦ if ltb nu expires then nu else expires ]

module _ (digest : Text → Text) where
  -- `key`
  abbrev pub key : Text → Text → Text
  key cert responder = digest cert ++ 0 ∷ responder

  -- `Cache.Lookup`
  unfoldable pub fetch : Cache → Text → Text → ℕ → Option Entry × Cache
  unfolding lookup delete is_stale
  fetch c cert responder now =
      let k = key cert responder in
      elim (lookup k c.entries) [
        | none ↦ (none, record c { misses = c.misses + 1 })
        | some e ↦
            if is_stale now e
            then (none, record c { entries = delete k c.entries; misses = c.misses + 1 })
            else (
              some e.value,
              record c {
                hits = c.hits + 1;
                stapled = if is_empty e.value.response then c.stapled else c.stapled + 1;
              },
            )
      ]

  -- `Cache.Store`
  unfoldable pub store : Cache → Text → Text → Entry → ℕ → Cache
  unfolding insert expiry evict
  store c cert responder v now =
      let expires = expiry c.cfg v now in
      if not (ltb now expires)
      then c
      else (let seq = (c.seq + 1) % 2 ^ 64 in
          let e : CachedEntry = record { value = v; expires = expires; seq = seq } in
          record c {
            seq = seq;
            entries = evict c.cfg.max_entries now (insert (key cert responder) e c.entries);
          })

-- ===== src/NickCache.antt =====
-- pkg/identity/s21_nick_cache.go: the process-local cache of S21 nicknames, a map to the elements of
-- a list in order of use, with a time to live and a cap. A pointer to a list element is a handle, a
-- number that the list gives out once; the mutex makes each method one step, and the clock that a
-- method reads is its argument.
pub mod Bounded
pub mod Steps
pub mod Bound
use ttbot_repo_placeholder.Prelude.{
  ℕ, zero, suc, ◌-◌, Bool, true, false, Option, none, some, List, [], ◌∷◌, ltb, eqb, length,
  if◌then◌else◌,
}
use ttbot_repo_placeholder.GoMap
use ttbot_repo_placeholder.GoMap.{GoMap, nat_eq}
use ttbot_repo_placeholder.Text.{Text}

-- identity.User
pub record User : Type 0 where
  pub telegram_id : ℕ
  pub nickname : Text
  pub campus_id : Text
  pub campus_name : Text
  pub coalition_name : Text
  pub found : Bool

-- s21NickEntry, with the handle of the list element that holds it.
pub record Element : Type 0 where
  pub handle : ℕ
  pub tid : ℕ
  pub user : User
  pub fetched_at : ℕ

-- S21NickCache; the front of `lru` is the most recently used element.
pub record NickCache : Type 0 where
  pub ttl : ℕ
  pub max_entries : ℕ
  pub entries : GoMap ℕ ℕ
  pub lru : List Element
  pub next_handle : ℕ

abbrev pub default_max : ℕ
default_max = 20000

-- NewS21NickCacheWithMax
unfoldable pub new_cache : ℕ → ℕ → NickCache
new_cache ttl max_entries = record {
  ttl = ttl;
  max_entries = if ltb max_entries 1 then default_max else max_entries;
  entries = [];
  lru = [];
  next_handle = 0;
}

-- Reads the element behind a pointer.
unfoldable pub element : ℕ → List Element → Option Element
element h [] = none
element h (e ∷ es) = if eqb e.handle h then some e else element h es

-- lru.Remove(el)
unfoldable pub remove : ℕ → List Element → List Element
remove h [] = []
remove h (e ∷ es) = let rest = remove h es in if eqb e.handle h then rest else e ∷ rest

-- `c.now().Sub(e.fetchedAt) > c.ttl`
unfoldable pub is_stale : NickCache → ℕ → Element → Bool
is_stale c now e = ltb c.ttl (now - e.fetched_at)

-- Get on a map entry whose element is `e`.
unfoldable pub get_element : ℕ → ℕ → Element → NickCache → Option User × NickCache
get_element now tid e c =
    if is_stale c now e
    then (none, record c { lru = remove e.handle c.lru; entries = GoMap.delete tid c.entries })
    else (some e.user, record c { lru = e ∷ remove e.handle c.lru })

-- Get. A map entry without its element, which would be a nil pointer, counts as a miss.
unfoldable pub get : ℕ → ℕ → NickCache → Option User × NickCache
unfolding get_element
get now tid c = elim (GoMap.get tid c.entries) [
  | none ↦ (none, c)
  | some h ↦ elim (element h c.lru) [ none ↦ (none, c) | some e ↦ get_element now tid e c ]
]

-- lru.Back()
unfoldable pub back : List Element → Option Element
back [] = none
back (e ∷ []) = some e
back (e ∷ f ∷ es) = back (f ∷ es)

-- The loop of evictLocked. Each round takes an element off the list, so its length is fuel enough.
unfoldable pub evict_loop : ℕ → NickCache → NickCache
evict_loop zero c = c
evict_loop (suc fuel) c = elim (ltb c.max_entries (length c.entries)) [
  | true ↦ elim (back c.lru) [
    | none ↦ c
    | some e ↦
        evict_loop fuel
          (record c { lru = remove e.handle c.lru; entries = GoMap.delete e.tid c.entries })
  ]
  | false ↦ c
]

-- evictLocked
unfoldable pub evict : NickCache → NickCache
evict c = evict_loop (length c.lru) c

-- Put on a map entry whose element is `e`.
unfoldable pub put_element : ℕ → User → Element → NickCache → NickCache
put_element now u e c = record c {
  lru = record e { user = u; fetched_at = now } ∷ remove e.handle c.lru;
}

-- PushFront and the map entry of a new element.
unfoldable pub push_front : ℕ → ℕ → User → NickCache → NickCache
push_front now tid u c = record c {
  lru = record { handle = c.next_handle; tid = tid; user = u; fetched_at = now } ∷ c.lru;
  entries = GoMap.put tid c.next_handle c.entries;
  next_handle = suc c.next_handle;
}

-- Put
unfoldable pub put : ℕ → ℕ → User → NickCache → NickCache
unfolding put_element push_front
put now tid u c = elim (GoMap.get tid c.entries) [
  | none ↦ evict (push_front now tid u c)
  | some h ↦ elim (element h c.lru) [ none ↦ c | some e ↦ put_element now u e c ]
]

-- Invalidate
unfoldable pub invalidate : ℕ → NickCache → NickCache
invalidate tid c = elim (GoMap.get tid c.entries) [
  | none ↦ c
  | some h ↦ record c { lru = remove h c.lru; entries = GoMap.delete tid c.entries }
]

-- Size
unfoldable pub size : NickCache → ℕ
size c = length c.entries

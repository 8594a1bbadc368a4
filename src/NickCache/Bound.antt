-- ===== src/NickCache/Bound.antt =====
-- Every method of the cache of pkg/identity/s21_nick_cache.go keeps it within its cap.
use ttbot_repo_placeholder.Prelude.{
  ℕ, ◌≡◌, refl, sym, subst, ◌∙◌, ap, Bool, true, false, Option, none, some, ◌∷◌, arith,
}
use ttbot_repo_placeholder.GoMap
use ttbot_repo_placeholder.GoMap.{GoMap, nat_eq}
use ttbot_repo_placeholder.NickCache.{
  User, Element, NickCache, element, remove, put, get, invalidate, size, is_stale, get_element,
}
use ttbot_repo_placeholder.NickCache.Bounded.{
  IsBounded, length-delete, remove-Linked, keep-Linked, element-Linked,
}
use ttbot_repo_placeholder.NickCache.Steps.{put-IsBounded}

dropped-IsBounded :
    (tid i : ℕ) (c : NickCache)
    → GoMap.get tid c.entries ≡ some i
    → IsBounded c
    → IsBounded (record c { lru = remove i c.lru; entries = GoMap.delete tid c.entries })
unfolding size
dropped-IsBounded tid i c q h =
    (remove-Linked i tid c.entries c.lru q h.0, ground (arith, length-delete tid c.entries, h.1))

invalidate-IsBounded : (tid : ℕ) (c : NickCache) → IsBounded c → IsBounded (invalidate tid c)
unfolding invalidate
invalidate-IsBounded tid c h = elim_entry (GoMap.get tid c.entries) refl
  where
    elim_entry : (o : Option ℕ) → GoMap.get tid c.entries ≡ o → IsBounded (invalidate tid c)
    elim_entry none q =
        let same : c ≡ invalidate tid c = ground (arith, q) in subst IsBounded same h
    elim_entry (some i) q =
        let gone : (record c { lru = remove i c.lru; entries = GoMap.delete tid c.entries })
            ≡ invalidate tid c =
          ground (arith, q) in
        subst IsBounded gone (dropped-IsBounded tid i c q h)

fresh-IsBounded :
    (i : ℕ) (e : Element) (c : NickCache)
    → element i c.lru ≡ some e
    → IsBounded c
    → IsBounded (record c { lru = e ∷ remove e.handle c.lru })
unfolding size
fresh-IsBounded i e c r h =
    let l = element-Linked i e c.entries c.lru r h.0 in
    ((l.1 ∙ ap some (sym l.0), keep-Linked e.handle c.entries c.lru h.0), h.1)

get_element-IsBounded :
    (now tid i : ℕ) (e : Element) (c : NickCache)
    → GoMap.get tid c.entries ≡ some i
    → element i c.lru ≡ some e
    → IsBounded c
    → IsBounded (get_element now tid e c).1
unfolding get_element
get_element-IsBounded now tid i e c q r h = elim_stale (is_stale c now e) refl
  where
    elim_stale : (b : Bool) → is_stale c now e ≡ b → IsBounded (get_element now tid e c).1
    elim_stale true f = rw (f) (
        dropped-IsBounded tid e.handle c
          (q ∙ ap some (sym (element-Linked i e c.entries c.lru r h.0).0)) h)
    elim_stale false f = rw (f) (fresh-IsBounded i e c r h)

get-IsBounded : (now tid : ℕ) (c : NickCache) → IsBounded c → IsBounded (get now tid c).1
unfolding get
get-IsBounded now tid c h = elim_entry (GoMap.get tid c.entries) refl
  where
    elim_element :
        (i : ℕ) (o : Option Element)
        → GoMap.get tid c.entries ≡ some i
        → element i c.lru ≡ o
        → IsBounded (get now tid c).1
    elim_element i none q r =
        let same : c ≡ (get now tid c).1 = ground (arith, q, r) in subst IsBounded same h
    elim_element i (some e) q r =
        let hit : (get_element now tid e c).1 ≡ (get now tid c).1 = ground (arith, q, r) in
        subst IsBounded hit (get_element-IsBounded now tid i e c q r h)

    elim_entry : (o : Option ℕ) → GoMap.get tid c.entries ≡ o → IsBounded (get now tid c).1
    elim_entry none q =
        let same : c ≡ (get now tid c).1 = ground (arith, q) in subst IsBounded same h
    elim_entry (some i) q = elim_element i (element i c.lru) q refl

-- A cache that holds no more entries than its cap, with its list linked to its map, is still one after
-- any Get, Put or Invalidate: an insertion above the cap evicts down to the cap.
pub cache-IsBounded :
    (now tid : ℕ) (u : User) (c : NickCache)
    → IsBounded c
    → IsBounded (get now tid c).1 × IsBounded (put now tid u c) × IsBounded (invalidate tid c)
cache-IsBounded now tid u c h =
    (get-IsBounded now tid c h, put-IsBounded now tid u c h, invalidate-IsBounded tid c h)

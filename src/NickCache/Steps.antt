-- ===== src/NickCache/Steps.antt =====
-- Every method of the cache of pkg/identity/s21_nick_cache.go keeps it within its cap.
use ttbot_repo_placeholder.Prelude.{
  ℕ, zero, suc, ◌≡◌, refl, sym, subst, ◌∙◌, ap, ◌≤◌, Bool, true, false, Option, none, some, List,
  [], ◌∷◌, arith, length, ltb,
}
use ttbot_repo_placeholder.GoMap
use ttbot_repo_placeholder.GoMap.{GoMap, nat_eq, get-put}
use ttbot_repo_placeholder.NickCache.{
  User, Element, NickCache, element, remove, back, evict_loop, evict, put, size, push_front,
  put_element,
}
use ttbot_repo_placeholder.NickCache.Bounded.{
  Linked, IsBounded, length-delete, length-delete-some, remove-Linked, keep-Linked, put-Linked,
  element-Linked, back-Linked,
}

-- The cache after one round of the eviction loop.
abbrev without : Element → NickCache → NickCache
without e c = record c { lru = remove e.handle c.lru; entries = GoMap.delete e.tid c.entries }

evict_loop-full :
    (fuel : ℕ) (c : NickCache) (e : Element)
    → ltb c.max_entries (length c.entries) ≡ true
    → back c.lru ≡ some e
    → evict_loop (suc fuel) c ≡ evict_loop fuel (without e c)
unfolding evict_loop
evict_loop-full fuel c e f q = ground arith

evict_loop-within :
    (fuel : ℕ) (c : NickCache)
    → ltb c.max_entries (length c.entries) ≡ false
    → evict_loop fuel c ≡ c
unfolding evict_loop
evict_loop-within zero c f = refl
evict_loop-within (suc fuel) c f = ground arith

back-cons : (e : Element) (es : List Element) → (f : Element) × (back (e ∷ es) ≡ some f)
unfolding back
back-cons e [] = (e, refl)
back-cons e (f ∷ es) = back-cons f es

-- One element above the cap, one round is enough.
evict-IsBounded :
    (c : NickCache) (e : Element) (es : List Element)
    → c.lru ≡ e ∷ es
    → Linked c.entries c.lru
    → length c.entries ≤ suc c.max_entries
    → IsBounded (evict c)
unfolding evict size
evict-IsBounded c e es q l n = elim_full (ltb c.max_entries (length c.entries)) refl
  where
    last : (f : Element) × (back c.lru ≡ some f)
    last = subst (λ x. (f : Element) × (back x ≡ some f)) (sym q) (back-cons e es)

    linked : GoMap.get last.0.tid c.entries ≡ some last.0.handle
    linked = back-Linked last.0 c.entries c.lru last.1 l

    elim_full : (b : Bool) → ltb c.max_entries (length c.entries) ≡ b → IsBounded (evict c)
    elim_full false f =
        subst IsBounded (sym (evict_loop-within (length c.lru) c f)) (l, ground arith)
    elim_full true f =
        let small = length-delete-some last.0.tid last.0.handle c.entries linked in
        let round =
          ap (λ x. evict_loop (length x) c) q
          ∙ evict_loop-full (length es) c last.0 f last.1
          ∙ evict_loop-within (length es) (without last.0 c) (ground arith) in
        subst IsBounded (sym round)
          (remove-Linked last.0.handle last.0.tid c.entries c.lru linked l, ground arith)

put-new :
    (now tid : ℕ) (u : User) (c : NickCache)
    → GoMap.get tid c.entries ≡ none
    → put now tid u c ≡ evict (push_front now tid u c)
unfolding put
put-new now tid u c q = ground arith

put-kept :
    (now tid i : ℕ) (u : User) (e : Element) (c : NickCache)
    → GoMap.get tid c.entries ≡ some i
    → element i c.lru ≡ some e
    → put now tid u c ≡ put_element now u e c
unfolding put
put-kept now tid i u e c q r = ground arith

pushed-IsBounded :
    (now tid : ℕ) (u : User) (c : NickCache)
    → GoMap.get tid c.entries ≡ none
    → IsBounded c
    → IsBounded (evict (push_front now tid u c))
unfolding push_front GoMap.put size
pushed-IsBounded now tid u c q h =
    evict-IsBounded (push_front now tid u c) _ c.lru refl
      (
        ground (arith, get-put tid tid c.next_handle c.entries),
        put-Linked c.next_handle tid c.entries c.lru q h.0,
      )
      (ground (arith, length-delete tid c.entries, h.1))

put_element-IsBounded :
    (now tid i : ℕ) (u : User) (e : Element) (c : NickCache)
    → element i c.lru ≡ some e
    → IsBounded c
    → IsBounded (put_element now u e c)
unfolding put_element size
put_element-IsBounded now tid i u e c r h =
    let l = element-Linked i e c.entries c.lru r h.0 in
    ((l.1 ∙ ap some (sym l.0), keep-Linked e.handle c.entries c.lru h.0), h.1)

pub put-IsBounded :
    (now tid : ℕ) (u : User) (c : NickCache) → IsBounded c → IsBounded (put now tid u c)
unfolding put
put-IsBounded now tid u c h = elim_entry (GoMap.get tid c.entries) refl
  where
    elim_element :
        (i : ℕ) (o : Option Element)
        → GoMap.get tid c.entries ≡ some i
        → element i c.lru ≡ o
        → IsBounded (put now tid u c)
    elim_element i none q r =
        let same : c ≡ put now tid u c = ground (arith, q, r) in subst IsBounded same h
    elim_element i (some e) q r =
        subst IsBounded (sym (put-kept now tid i u e c q r))
          (put_element-IsBounded now tid i u e c r h)

    elim_entry : (o : Option ℕ) → GoMap.get tid c.entries ≡ o → IsBounded (put now tid u c)
    elim_entry none q =
        subst IsBounded (sym (put-new now tid u c q)) (pushed-IsBounded now tid u c q h)
    elim_entry (some i) q = elim_element i (element i c.lru) q refl

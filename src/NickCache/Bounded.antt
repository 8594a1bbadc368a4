-- ===== src/NickCache/Bounded.antt =====
-- The cap of the cache of pkg/identity/s21_nick_cache.go, and the link between its list and its map.
use ttbot_repo_placeholder.Prelude.{ℕ, ◌≡◌, ◌≤◌, ◌<◌, none, some, List, [], ◌∷◌, arith, length, All}
use ttbot_repo_placeholder.GoMap
use ttbot_repo_placeholder.GoMap.{GoMap, nat_eq, get-delete, get-put}
use ttbot_repo_placeholder.NickCache.{Element, NickCache, element, remove, back, size}

pub length-delete : (k : ℕ) (m : GoMap ℕ ℕ) → length (GoMap.delete k m) ≤ length m
unfolding GoMap.delete
length-delete k [] = omega arith
length-delete k ((j, v) ∷ m) = ground (arith, length-delete k m)

pub length-delete-some :
    (k h : ℕ) (m : GoMap ℕ ℕ) → GoMap.get k m ≡ some h → length (GoMap.delete k m) < length m
unfolding GoMap.delete GoMap.get
length-delete-some k h [] e = ground (arith, e)
length-delete-some k h ((j, v) ∷ m) e =
    ground (arith, length-delete k m, e, length-delete-some k h m)

-- The map leads from the user of every list element to that element.
abbrev pub Linked : GoMap ℕ ℕ → List Element → Type 0
Linked entries es = All (λ e. GoMap.get e.tid entries ≡ some e.handle) es

-- Within its cap, with its list linked to its map.
abbrev pub IsBounded : NickCache → Type 0
IsBounded c = Linked c.entries c.lru × (size c ≤ c.max_entries)

pub remove-Linked :
    (h tid : ℕ) (entries : GoMap ℕ ℕ) (es : List Element)
    → GoMap.get tid entries ≡ some h
    → Linked entries es
    → Linked (GoMap.delete tid entries) (remove h es)
unfolding remove
remove-Linked h tid entries [] e l = tt
remove-Linked h tid entries (f ∷ es) e l =
    ground (arith, remove-Linked h tid entries es e l.1, l, e, get-delete tid f.tid entries)

pub keep-Linked :
    (h : ℕ) (entries : GoMap ℕ ℕ) (es : List Element)
    → Linked entries es
    → Linked entries (remove h es)
unfolding remove
keep-Linked h entries [] l = tt
keep-Linked h entries (f ∷ es) l = ground (arith, keep-Linked h entries es l.1, l)

pub put-Linked :
    (h tid : ℕ) (entries : GoMap ℕ ℕ) (es : List Element)
    → GoMap.get tid entries ≡ none
    → Linked entries es
    → Linked (GoMap.put tid h entries) es
put-Linked h tid entries [] e l = tt
put-Linked h tid entries (f ∷ es) e l =
    ground (arith, put-Linked h tid entries es e l.1, l, e, get-put tid f.tid h entries)

pub element-Linked :
    (h : ℕ) (e : Element) (entries : GoMap ℕ ℕ) (es : List Element)
    → element h es ≡ some e
    → Linked entries es
    → (e.handle ≡ h) × (GoMap.get e.tid entries ≡ some h)
unfolding element
element-Linked h e entries [] q l = ground (arith, q)
element-Linked h e entries (f ∷ es) q l = ground (arith, element-Linked h e entries es, q, l)

pub back-Linked :
    (e : Element) (entries : GoMap ℕ ℕ) (es : List Element)
    → back es ≡ some e
    → Linked entries es
    → GoMap.get e.tid entries ≡ some e.handle
unfolding back
back-Linked e entries [] q l = ground (arith, q)
back-Linked e entries (f ∷ []) q l = ground (arith, q, l)
back-Linked e entries (f ∷ g ∷ es) q l = back-Linked e entries (g ∷ es) q l.1

-- ===== src/Ledger/Steps/Tables.antt =====
-- Tables whose rows stand under the keys of their own fields, once each: the operations on Go's maps
-- keep them so.
use ttbot_repo_placeholder.Prelude.{◌≡◌, Bool, some, [], ◌∷◌, arith, All}
use ttbot_repo_placeholder.GoMap
use ttbot_repo_placeholder.GoMap.{Key, GoMap, get-put, get-delete, get-delete_where}

module _ {K V : Type 0} ⦃e : Key K⦄ (key_of : V → K) where
  -- The rows `rows` of the table `full`.
  abbrev pub Linked : GoMap K V → GoMap K V → Type 0
  Linked full rows = All (λ r. (r.0 ≡ key_of r.1) × (GoMap.get r.0 full ≡ some r.1)) rows

  -- What a read gives stands under its own key.
  pub get-Linked :
      (k : K) (v : V) (full rows : GoMap K V)
      → Linked full rows
      → GoMap.get k rows ≡ some v
      → k ≡ key_of v
  unfolding GoMap.get
  get-Linked k v full [] h g = cc
  get-Linked k v full ((j, w) ∷ rows) h g =
      ground (arith, get-Linked k v full rows h.1, h.0, e.same_iff j k)

  delete-Linked_of :
      (k : K) (full rows : GoMap K V)
      → Linked full rows
      → Linked (GoMap.delete k full) (GoMap.delete k rows)
  unfolding GoMap.delete
  delete-Linked_of k full [] h = tt
  delete-Linked_of k full ((j, w) ∷ rows) h = ground (
    arith,
    delete-Linked_of k full rows h.1,
    h.0,
    get-delete k j full,
    e.same_iff k j,
    e.same_iff j k,
  )

  pub delete-Linked :
      (k : K) (rows : GoMap K V)
      → Linked rows rows
      → Linked (GoMap.delete k rows) (GoMap.delete k rows)
  delete-Linked k rows h = delete-Linked_of k rows rows h

  kept-Linked :
      (k : K) (v : V) (full rows : GoMap K V)
      → Linked (GoMap.delete k full) rows
      → Linked (GoMap.put k v full) rows
  kept-Linked k v full [] h = tt
  kept-Linked k v full ((j, w) ∷ rows) h =
      ground (arith, kept-Linked k v full rows h.1, h.0, get-put k j v full, get-delete k j full)

  pub put-Linked :
      (k : K) (v : V) (rows : GoMap K V)
      → k ≡ key_of v
      → Linked rows rows
      → Linked (GoMap.put k v rows) (GoMap.put k v rows)
  unfolding GoMap.put GoMap.get
  put-Linked k v rows own h = (
    (own, ground (arith, e.same_iff k k)),
    kept-Linked k v rows (GoMap.delete k rows) (delete-Linked k rows h),
  )

  delete_where-Linked_of :
      (p : K → Bool) (full rows : GoMap K V)
      → Linked full rows
      → Linked (GoMap.delete_where p full) (GoMap.delete_where p rows)
  unfolding GoMap.delete_where
  delete_where-Linked_of p full [] h = tt
  delete_where-Linked_of p full ((j, w) ∷ rows) h =
      ground (arith, delete_where-Linked_of p full rows h.1, h.0, get-delete_where p j full)

  pub delete_where-Linked :
      (p : K → Bool) (rows : GoMap K V)
      → Linked rows rows
      → Linked (GoMap.delete_where p rows) (GoMap.delete_where p rows)
  delete_where-Linked p rows h = delete_where-Linked_of p rows rows h

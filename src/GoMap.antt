-- ===== src/GoMap.antt =====
-- Go's maps (`map[K]V`), as association lists: read, assignment, `delete`, and the loops
-- `for k, v := range m` of pkg/store/memstore/memstore.go. Go leaves the order of a range loop open;
-- the order of the list is the one that a run happens to take.
use ttbot_repo_placeholder.Prelude.{
  ℕ, ◌≡◌, ◌↔◌, Bool, true, Option, none, some, List, [], ◌∷◌, arith, eqb, eqb_iff, if◌then◌else◌,
}

-- A type of keys, with Go's comparison of two of them.
pub record Key {κ} (K : Type κ) : Type κ where
  pub same : (j k : K) → Bool
  pub same_iff : (j k : K) → (same j k ≡ true) ↔ (j ≡ k)

instance abbrev pub nat_eq : Key ℕ
nat_eq = record { same = eqb; same_iff = eqb_iff }

infix 50 ◌==◌
abbrev pub ◌==◌ {κ} : {K : Type κ} ⦃keys : Key K⦄ → K → K → Bool
◌==◌ ⦃keys⦄ j k = keys.same j k

abbrev pub GoMap {ℓ} : Type ℓ → Type ℓ → Type ℓ
GoMap K V = List (K × V)

module _ {ℓ} {K V : Type ℓ} where
  -- for k, v := range m { if p(k) { out = append(out, v) } }
  unfoldable pub values_where : (K → Bool) → GoMap K V → List V
  values_where p [] = []
  values_where p ((k, v) ∷ m) = let rest = values_where p m in if p k then v ∷ rest else rest

  -- for k := range m { if p(k) { delete(m, k) } }
  unfoldable pub delete_where : (K → Bool) → GoMap K V → GoMap K V
  delete_where p [] = []
  delete_where p ((k, v) ∷ m) = let rest = delete_where p m in if p k then rest else (k, v) ∷ rest

module _ {ℓ} {K V : Type ℓ} ⦃e : Key K⦄ where
  -- v, ok := m[k]
  unfoldable pub get : K → GoMap K V → Option V
  get k [] = none
  get k ((j, v) ∷ m) = if j == k then some v else get k m

  -- delete(m, k)
  unfoldable pub delete : K → GoMap K V → GoMap K V
  delete k [] = []
  delete k ((j, v) ∷ m) = let rest = delete k m in if j == k then rest else (j, v) ∷ rest

  -- m[k] = v
  unfoldable pub put : K → V → GoMap K V → GoMap K V
  put k v m = (k, v) ∷ delete k m

  pub get-delete :
      (k j : K) (m : GoMap K V) → get j (delete k m) ≡ (if k == j then none else get j m)
  unfolding get delete
  get-delete k j [] = ground arith
  get-delete k j ((i, v) ∷ m) =
      ground (arith, get-delete k j m, e.same_iff i k, e.same_iff i j, e.same_iff k j)

  pub get-put :
      (k j : K) (v : V) (m : GoMap K V) → get j (put k v m) ≡ (if k == j then some v else get j m)
  unfolding get put
  get-put k j v m = ground (arith, get-delete k j m)

  pub get-delete_where :
      (p : K → Bool) (j : K) (m : GoMap K V)
      → get j (delete_where p m) ≡ (if p j then none else get j m)
  unfolding get delete_where
  get-delete_where p j [] = ground arith
  get-delete_where p j ((i, v) ∷ m) = ground (arith, get-delete_where p j m, e.same_iff i j)

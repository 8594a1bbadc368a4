-- ===== src/Interactive/Picker/Pages.antt =====
-- The page that renderOpponentPicker of pkg/handlers/match_interactive.go shows.
use ttbot_repo_placeholder.Prelude.{
  ℕ, zero, suc, ◌+◌, ◌-◌, ◌*◌, ◌≤◌, ◌<◌, ◌≡◌, sym, ap, ◌∙◌, List, [], ◌++◌, length, take, drop,
  take-drop_append, drop-drop, drop_all, arith,
}
use ttbot_repo_placeholder.Interactive.Picker.{clamp_page, total_pages, opp_per_page, page_rows}

-- Whatever page a payload asks for, negative and too large ones included, the page that is shown to a
-- group with somebody to pick is one of the pages that there are, and its first row is one of the
-- candidates, so that the slice of the candidates is in bounds and not empty.
pub clamp_page_bounds :
    (n page : ℕ)
    → 1 ≤ n
    → (1 ≤ clamp_page (total_pages n) page)
      × (clamp_page (total_pages n) page ≤ total_pages n)
      × ((clamp_page (total_pages n) page - 1) * opp_per_page < n)
unfolding clamp_page total_pages
clamp_page_bounds n page h = ground arith

module _ {ℓ} {A : Type ℓ} where
  -- The candidates on `k` pages, from the page on.
  pub pages_from : ℕ → ℕ → List A → List A
  pages_from page zero cs = []
  pages_from page (suc k) cs = page_rows page cs ++ pages_from (suc page) k cs

  pages_from-drop :
      (m k : ℕ) (cs : List A)
      → length cs ≤ (m + k) * opp_per_page
      → pages_from (suc m) k cs ≡ drop (m * opp_per_page) cs
  unfolding pages_from page_rows
  pages_from-drop m zero cs h = sym (drop_all (m * opp_per_page) cs (omega (arith, h)))
  pages_from-drop m (suc k) cs h =
      let shown = drop (m * opp_per_page) cs in
      ap (λ n. take opp_per_page (drop n cs) ++ pages_from (suc (suc m)) k cs) (omega arith)
      ∙ ap (λ l. take opp_per_page shown ++ l)
          (pages_from-drop (suc m) k cs (omega (arith, h))
            ∙ ap (λ n. drop n cs) (omega arith)
            ∙ sym (drop-drop (m * opp_per_page) opp_per_page cs))
      ∙ take-drop_append opp_per_page shown

  -- The pages, one after the other, show every candidate once and in their order.
  pub pages_cover : (cs : List A) → pages_from 1 (total_pages (length cs)) cs ≡ cs
  unfolding total_pages
  pages_cover cs = pages_from-drop 0 (total_pages (length cs)) cs (omega arith)

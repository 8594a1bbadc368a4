-- ===== src/Ratings/Glicko/Update.antt =====
-- glicko2Update of pkg/rating/glicko2.go, steps 3 to 8 of Glickman's algorithm for one player.
use ttbot_repo_placeholder.Prelude.{
  ℕ, zero, suc, Bool, Option, none, some, List, [], ◌∷◌, ◌||◌, if◌then◌else◌,
}
use ttbot_repo_placeholder.Ratings.{Floats}

-- g2Opp
pub record Opponent (F : Type 0) : Type 0 where
  pub mu : F
  pub phi : F
  pub score : F

-- The rating, its deviation and its volatility, on the engine's scale.
pub record Strength (F : Type 0) : Type 0 where
  pub mu : F
  pub phi : F
  pub sigma : F

module _ {F : Type 0} (fl : Floats F) where
  square : F → F
  square x = fl.mul x x

  -- gFn
  unfoldable pub g_fn : F → F
  unfolding square
  g_fn phi = fl.div (fl.of_nat 1) (
      fl.sqrt (fl.add (fl.of_nat 1) (fl.div (fl.mul (fl.mul (fl.of_nat 3) phi) phi) fl.pi_squared)))

  -- eFn
  unfoldable pub e_fn : F → F → F → F
  e_fn mu mu_j phi_j =
      fl.div (fl.of_nat 1)
        (fl.add (fl.of_nat 1) (fl.exp (fl.mul (fl.neg (g_fn phi_j)) (fl.sub mu mu_j))))

  -- math.Sqrt(a*a + b*b)
  unfoldable pub square_sum : F → F → F
  unfolding square
  square_sum a b = fl.sqrt (fl.add (square a) (square b))

  -- The loop of step 3.
  unfoldable pub variance : F → F → List (Opponent F) → F
  unfolding square
  variance mu v [] = v
  variance mu v (o ∷ os) =
      let e = e_fn mu o.mu o.phi in
      variance mu (fl.add v (fl.mul (fl.mul (square (g_fn o.phi)) e) (fl.sub (fl.of_nat 1) e))) os

  -- The loop of step 4, and that of step 7.
  unfoldable pub improvement : F → F → List (Opponent F) → F
  improvement mu d [] = d
  improvement mu d (o ∷ os) =
      improvement mu (fl.add d (fl.mul (g_fn o.phi) (fl.sub o.score (e_fn mu o.mu o.phi)))) os

  abbrev tau : F
  tau = fl.ratio 1 2

  module _ (delta phi v a : F) where
    -- The closure `f`.
    unfoldable pub slope : F → F
    unfolding square
    slope x =
        let ex = fl.exp x in
        let num = fl.mul ex (fl.sub (fl.sub (fl.sub (square delta) (square phi)) v) ex) in
        let sum = fl.add (fl.add (square phi) v) ex in
        let den = fl.mul (fl.mul (fl.of_nat 2) sum) sum in
        fl.sub (fl.div num den) (fl.div (fl.sub x a) (fl.mul tau tau))

    -- `for f(a-k*tau) < 0 { k++ }`
    unfoldable pub bracket : ℕ → F → Option F
    bracket zero k = none
    bracket (suc fuel) k =
        let rest = bracket fuel (fl.add k (fl.of_nat 1)) in
        if fl.lt (slope (fl.sub a (fl.mul k tau))) (fl.of_nat 0) then rest else some k

    -- B
    unfoldable pub lower_end : ℕ → Option F
    unfolding square
    lower_end fuel =
        if fl.lt (fl.add (square phi) v) (square delta)
        then some (fl.log (fl.sub (fl.sub (square delta) (square phi)) v))
        else elim (bracket fuel (fl.of_nat 1)) [
          | none ↦ none
          | some k ↦ some (fl.sub a (fl.mul k tau))
        ]

    -- x <= 0
    not_positive : F → Bool
    not_positive x = fl.lt x (fl.of_nat 0) || fl.eq x (fl.of_nat 0)

    -- The loop of step 5 on A, B, fA and fB; its result is A.
    unfoldable pub illinois : ℕ → F → F → F → F → Option F
    unfolding not_positive
    illinois zero x y fx fy = none
    illinois (suc fuel) x y fx fy =
        let z = fl.add x (fl.div (fl.mul (fl.sub x y) fx) (fl.sub fy fx)) in
        let fz = slope z in
        let moved = illinois fuel y z fy fz in
        let halved = illinois fuel x z (fl.div fx (fl.of_nat 2)) fz in
        if fl.lt (fl.ratio 1 1_000_000) (fl.abs (fl.sub y x))
        then (if not_positive (fl.mul fz fy) then moved else halved)
        else some x

    -- Step 5: the new volatility.
    unfoldable pub new_sigma : ℕ → Option F
    new_sigma fuel = elim (lower_end fuel) [
      | none ↦ none
      | some b ↦ elim (illinois fuel a b (slope a) (slope b)) [
        | none ↦ none
        | some x ↦ some (fl.exp (fl.div x (fl.of_nat 2)))
      ]
    ]

  -- Steps 6 and 7, from the new volatility.
  unfoldable pub moved : Strength F → List (Opponent F) → F → F → Strength F
  unfolding square
  moved s os v sigma =
      let phi_star = square_sum s.phi sigma in
      let phi =
        fl.div (fl.of_nat 1)
          (fl.sqrt (fl.add (fl.div (fl.of_nat 1) (square phi_star)) (fl.div (fl.of_nat 1) v))) in
      record {
        mu = fl.add s.mu (fl.mul (square phi) (improvement s.mu (fl.of_nat 0) os));
        phi = phi;
        sigma = sigma;
      }

  -- glicko2Update
  unfoldable pub glicko2_update : ℕ → Strength F → List (Opponent F) → Option (Strength F)
  unfolding square
  glicko2_update fuel s os =
      let information = variance s.mu (fl.of_nat 0) os in
      let v = fl.div (fl.of_nat 1) information in
      let delta = fl.mul (improvement s.mu (fl.of_nat 0) os) v in
      if fl.eq information (fl.of_nat 0)
      then some (record s { phi = square_sum s.phi s.sigma })
      else elim (new_sigma delta s.phi v (fl.log (square s.sigma)) fuel) [
        | none ↦ none
        | some sigma ↦ some (moved s os v sigma)
      ]

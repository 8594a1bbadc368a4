-- ===== src/Refine.antt =====
-- The handlers of pkg/handlers implement the steps of Ledger.Steps: whatever an update or a run of the
-- periodic job does to the ledger is a sequence of them.
pub mod Rows
pub mod Confirm
pub mod Undo
pub mod Register
pub mod Taps
pub mod Expiry
pub mod Groups
pub mod StatsTopic
pub mod Others
pub mod Updates
pub mod Runs
pub mod Agreement
use ttbot_repo_placeholder.Prelude.{ℕ, ◌+◌, ◌≡◌, refl, sym, subst, Bool, true, false, if◌then◌else◌}
use ttbot_repo_placeholder.Store.Matches.{Found, found, not_found}
use ttbot_repo_placeholder.Bot.{Bot, Env, is_chat_admin, ◌>>=◌, ◌>>◌}
use ttbot_repo_placeholder.Ledger.{ledger}
use ttbot_repo_placeholder.Ledger.Steps.{Actor, Cause, Steps, stay, join, weaken}
use ttbot_repo_placeholder.Ledger.Steps.WellFormed.{WellFormed, Steps-WellFormed}

-- A property of a branch on a read of the store.
pub found_case {ℓ κ μ} :
    {R : Type ℓ} (P : R → Type κ) {A : Type μ} (r : Found A) {f : A → R} {x : R}
    → ((a : A) → r ≡ found a → P (f a))
    → (r ≡ not_found → P x)
    → P (elim r [ found a ↦ f a | not_found ↦ x ])
found_case P (found a) h k = h a refl
found_case P not_found h k = k refl

module _ (env : Env) (actor : Actor) where
  -- What the steps of an update depend on.
  abbrev pub cause : Cause
  cause = record {
    actor = actor;
    admin = is_chat_admin env;
    now = env.now;
    wall_now = env.wall_now;
  }

  -- The ledger of a result is reached by steps.
  abbrev pub Reached {ℓ} : {A : Type ℓ} → ℕ → Bot → A × Bot → Type 0
  Reached n b r = Steps cause n (ledger b) (ledger r.1)

  -- A function of the bot that does no more to a well-formed ledger than the steps allow.
  abbrev pub Refines {ℓ} : {A : Type ℓ} → ℕ → (Bot → A × Bot) → Type 0
  Refines n step = (b : Bot) → WellFormed (ledger b) → Reached n b (step b)

  -- One that leaves the ledger alone takes no step.
  pub keeps-Refines {ℓ} :
      {A : Type ℓ} {n : ℕ} (step : Bot → A × Bot)
      → ((b : Bot) → ledger (step b).1 ≡ ledger b)
      → Refines n step
  keeps-Refines {n = n} step h b w = subst (Steps cause n (ledger b)) (sym (h b)) stay

  -- Two functions, one after the other.
  pub then-Refines {ℓ κ} :
      {A : Type ℓ} {B : Type κ} {c d : ℕ} (step : Bot → A × Bot) (next : A → Bot → B × Bot)
      → Refines c step
      → ((a : A) → Refines d (next a))
      → Refines (c + d) (step >>= next)
  then-Refines step next h k b w =
      let s = h b w in join cause s (k (step b).0 (step b).1 (Steps-WellFormed cause s w))

  pub after-Refines {ℓ κ} :
      {A : Type ℓ} {B : Type κ} {c d : ℕ} (step : Bot → A × Bot) (next : Bot → B × Bot)
      → Refines c step
      → Refines d next
      → Refines (c + d) (step >> next)
  after-Refines step next h k = then-Refines step (λ _. next) h (λ _. k)

  pub if-Refines {ℓ} :
      {A : Type ℓ} {n : ℕ} (c : Bool) (x y : Bot → A × Bot)
      → Refines n x
      → Refines n y
      → Refines n (if c then x else y)
  if-Refines true x y h k = h
  if-Refines false x y h k = k

  -- No registration is at most one.
  pub upto-Refines {ℓ} : {A : Type ℓ} (step : Bot → A × Bot) → Refines 0 step → Refines 1 step
  upto-Refines step h b w = weaken cause 1 (h b w)

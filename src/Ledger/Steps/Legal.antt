-- ===== src/Ledger/Steps/Legal.antt =====
-- Every row in the ledger is a game that can be played: two different players, and a winner.
use ttbot_repo_placeholder.Prelude.{ℕ, ◌≡◌, Bool, true, not, ◌&&◌, Option, none, some, arith, eqb}
use ttbot_repo_placeholder.GoMap
use ttbot_repo_placeholder.GoMap.{get-put, get-delete}
use ttbot_repo_placeholder.Models.{Match, MatchStatus}
use ttbot_repo_placeholder.Handlers.Undo.{toggled}
use ttbot_repo_placeholder.Store.{MatchKey, match_key}
use ttbot_repo_placeholder.Ledger.{Ledger}
use ttbot_repo_placeholder.Ledger.Expiry.{key_of}
use ttbot_repo_placeholder.Ledger.Steps.{
  Cause, Step, Steps, Registration, then_register, registered, confirmed, approved, cancelled,
  expired, requested, flipped, withdrawn, lapsed, regrouped, stay, then_step,
}

abbrev pub is_legal : Option Match → Bool
is_legal none = true
is_legal (some m) = not (eqb m.player1_id m.player2_id) && not (eqb m.player1_score m.player2_score)

-- The rows of the ledger are legal.
abbrev pub HasLegalRows : Ledger → Type 0
HasLegalRows l = (k : MatchKey) → is_legal (GoMap.get k l.matches) ≡ true

module _ (cause : Cause) where
  Registration-HasLegalRows :
      {l m : Ledger} → Registration cause l m → HasLegalRows l → HasLegalRows m
  Registration-HasLegalRows {l} (registered m i p s st a) h k =
      ground (arith, get-put (key_of m) k m l.matches, h k, p, s)

  Step-HasLegalRows : {l m : Ledger} → Step cause l m → HasLegalRows l → HasLegalRows m
  Step-HasLegalRows {l} (confirmed user j m g p d) h k = h k
  Step-HasLegalRows {l} (approved user j m g p d a) h k = ground (
    arith,
    get-put (key_of m) k (record m { status = MatchStatus.approved }) l.matches,
    h k,
    h j,
    g,
  )
  Step-HasLegalRows {l} (cancelled user j m g p d) h k =
      ground (arith, get-delete j k l.matches, h k)
  Step-HasLegalRows {l} (expired j m g p t a) h k = ground (arith, get-delete j k l.matches, h k)
  Step-HasLegalRows {l} (requested user j m g p d) h k = h k
  Step-HasLegalRows {l} (flipped user j m g p d a) h k =
      ground (
        arith,
        get-put (key_of m) k (record m { status = toggled m.status }) l.matches,
        h k,
        h j,
        g,
      )
  Step-HasLegalRows {l} (withdrawn v a) h k = h k
  Step-HasLegalRows {l} (lapsed v u g t a) h k = h k
  Step-HasLegalRows {l} (regrouped g a) h k = h k

  pub Steps-HasLegalRows :
      {n : ℕ} {l m : Ledger} → Steps cause n l m → HasLegalRows l → HasLegalRows m
  Steps-HasLegalRows stay h = h
  Steps-HasLegalRows (then_register s t) h = Registration-HasLegalRows t (Steps-HasLegalRows s h)
  Steps-HasLegalRows (then_step s t) h = Step-HasLegalRows t (Steps-HasLegalRows s h)

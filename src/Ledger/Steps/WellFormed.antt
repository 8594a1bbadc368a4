-- ===== src/Ledger/Steps/WellFormed.antt =====
-- The tables of the ledger stay maps whose rows stand under their own keys, whatever steps are taken.
use ttbot_repo_placeholder.Prelude.{ℕ, refl}
use ttbot_repo_placeholder.GoMap.{nat_eq}
use ttbot_repo_placeholder.Models.{Group, MatchConfirmation}
use ttbot_repo_placeholder.Store.{VoteKey, match_key, vote_key}
use ttbot_repo_placeholder.Ledger.{Ledger}
use ttbot_repo_placeholder.Ledger.Expiry.{key_of}
use ttbot_repo_placeholder.Ledger.UndoCleanup.{request_key}
use ttbot_repo_placeholder.Ledger.Steps.{
  Cause, Step, Steps, Registration, then_register, registered, confirmed, approved, cancelled,
  expired, requested, flipped, withdrawn, lapsed, regrouped, stay, then_step,
}
use ttbot_repo_placeholder.Ledger.Steps.Tables.{
  Linked, put-Linked, delete-Linked, delete_where-Linked,
}

-- The key of a confirmation.
abbrev pub confirmation_key : MatchConfirmation → VoteKey
confirmation_key c = record { group = c.group_id; match_id = c.match_id; user = c.telegram_id }

abbrev pub group_key : Group → ℕ
group_key g = g.group_id

pub record WellFormed (l : Ledger) : Type 0 where
  pub rows : Linked key_of l.matches l.matches
  pub votes : Linked confirmation_key l.confirmations l.confirmations
  pub requests : Linked request_key l.undos l.undos
  pub groups : Linked group_key l.groups l.groups

module _ (cause : Cause) where
  pub Registration-WellFormed :
      {l m : Ledger} → Registration cause l m → WellFormed l → WellFormed m
  Registration-WellFormed {l} (registered m i p s st a) w = record {
    rows = put-Linked key_of (key_of m) m l.matches refl w.rows;
    votes = w.votes;
    requests = w.requests;
    groups = w.groups;
  }

  pub Step-WellFormed : {l m : Ledger} → Step cause l m → WellFormed l → WellFormed m
  Step-WellFormed {l} (confirmed user k m h p d) w = record {
    rows = w.rows;
    votes = put-Linked confirmation_key _ _ l.confirmations refl w.votes;
    requests = w.requests;
    groups = w.groups;
  }
  Step-WellFormed {l} (approved user k m h p d a) w = record {
    rows = put-Linked key_of _ _ l.matches refl w.rows;
    votes = w.votes;
    requests = w.requests;
    groups = w.groups;
  }
  Step-WellFormed {l} (cancelled user k m h p d) w = record {
    rows = delete-Linked key_of k l.matches w.rows;
    votes = delete_where-Linked confirmation_key _ l.confirmations w.votes;
    requests = delete_where-Linked request_key _ l.undos w.requests;
    groups = w.groups;
  }
  Step-WellFormed {l} (expired k m h p t a) w = record {
    rows = delete-Linked key_of k l.matches w.rows;
    votes = delete_where-Linked confirmation_key _ l.confirmations w.votes;
    requests = delete_where-Linked request_key _ l.undos w.requests;
    groups = w.groups;
  }
  Step-WellFormed {l} (requested user k m h p d) w = record {
    rows = w.rows;
    votes = w.votes;
    requests = put-Linked request_key _ _ l.undos refl w.requests;
    groups = w.groups;
  }
  Step-WellFormed {l} (flipped user k m h p d a) w = record {
    rows = put-Linked key_of _ _ l.matches refl w.rows;
    votes = w.votes;
    requests = delete_where-Linked request_key _ l.undos w.requests;
    groups = w.groups;
  }
  Step-WellFormed {l} (withdrawn v a) w = record {
    rows = w.rows;
    votes = w.votes;
    requests = delete-Linked request_key v l.undos w.requests;
    groups = w.groups;
  }
  Step-WellFormed {l} (lapsed v u g t a) w = record {
    rows = w.rows;
    votes = w.votes;
    requests = delete-Linked request_key v l.undos w.requests;
    groups = w.groups;
  }
  Step-WellFormed {l} (regrouped g a) w = record {
    rows = w.rows;
    votes = w.votes;
    requests = w.requests;
    groups = put-Linked group_key _ _ l.groups refl w.groups;
  }

  pub Steps-WellFormed : {n : ℕ} {l m : Ledger} → Steps cause n l m → WellFormed l → WellFormed m
  Steps-WellFormed stay w = w
  Steps-WellFormed (then_register s t) w = Registration-WellFormed t (Steps-WellFormed s w)
  Steps-WellFormed (then_step s t) w = Step-WellFormed t (Steps-WellFormed s w)

-- ===== src/Ledger/Steps.antt =====
-- The life of a match, as steps on the ledger: what the handlers of pkg/handlers may do to it, and in
-- which states. It knows neither messages nor caches; who acts, who is an admin of which chat, and the clocks are parameters.
pub mod Tables
pub mod WellFormed
pub mod Legal
pub mod Settled
use ttbot_repo_placeholder.Prelude.{
  ℕ, ◌≡◌, ◌⊎◌, Bool, true, false, ◌||◌, not, none, some, eqb, Option, suc, ◌+◌, ◌-◌, ◌*◌, ◌<◌,
  subst, arith,
}
use ttbot_repo_placeholder.GoMap
use ttbot_repo_placeholder.GoMap.{nat_eq}
use ttbot_repo_placeholder.Models.{Group, Match, MatchStatus, UndoCommand, is_status, hour}
use ttbot_repo_placeholder.Store.{MatchKey, VoteKey, match_key, vote_key}
use ttbot_repo_placeholder.Store.Matches.{of_match}
use ttbot_repo_placeholder.Store.Keyed.{is_some}
use ttbot_repo_placeholder.Handlers.Register.{initial_status}
use ttbot_repo_placeholder.Handlers.Undo.{toggled}
use ttbot_repo_placeholder.Ledger.{Ledger}
use ttbot_repo_placeholder.Ledger.Register.{next_id}
use ttbot_repo_placeholder.Ledger.Expiry.{key_of, is_timed_out}

-- The vote of a user on the match of a key.
abbrev pub vote_on : MatchKey → ℕ → VoteKey
vote_on k user = record { group = k.group; match_id = k.match_id; user = user }

-- The tables after each kind of step.
abbrev pub with_row : Match → Ledger → Ledger
with_row m l = record l { matches = GoMap.put (key_of m) m l.matches }

abbrev pub with_confirmation : ℕ → MatchKey → ℕ → Ledger → Ledger
with_confirmation now k user l = record l {
  confirmations =
      GoMap.put (vote_on k user)
        (record {
          group_id = k.group;
          match_id = k.match_id;
          telegram_id = user;
          confirmed_at = now;
        })
        l.confirmations;
}

abbrev pub with_request : ℕ → MatchKey → ℕ → Ledger → Ledger
with_request now k user l = record l {
  undos =
      GoMap.put (vote_on k user)
        (record {
          group_id = k.group;
          match_id = k.match_id;
          telegram_id = user;
          requested_at = now;
        })
        l.undos;
}

abbrev pub without_requests : MatchKey → Ledger → Ledger
without_requests k l = record l { undos = GoMap.delete_where (of_match k.group k.match_id) l.undos }

abbrev pub without_match : MatchKey → Ledger → Ledger
without_match k l = record l {
  matches = GoMap.delete k l.matches;
  confirmations = GoMap.delete_where (of_match k.group k.match_id) l.confirmations;
  undos = GoMap.delete_where (of_match k.group k.match_id) l.undos;
}

-- A new row, with its group's counter at its id.
abbrev pub with_new_row : Match → Ledger → Ledger
with_new_row m l = record (with_row m l) {
  match_counters = GoMap.put m.group_id m.match_id l.match_counters;
}

abbrev pub is_player : ℕ → Match → Bool
is_player user m = eqb user m.player1_id || eqb user m.player2_id

abbrev pub HasVoted : MatchKey → ℕ → Ledger → Type 0
HasVoted k user l = is_some (GoMap.get (vote_on k user) l.confirmations) ≡ true

abbrev pub HasAsked : MatchKey → ℕ → Ledger → Type 0
HasAsked k user l = is_some (GoMap.get (vote_on k user) l.undos) ≡ true

-- Approved or undone.
abbrev pub was_approved : Match → Bool
was_approved m = is_status m.status MatchStatus.approved || is_status m.status MatchStatus.undone

-- Who makes the bot act: a user by a message or a tap, the timer of the periodic job, or nobody, as in a
-- detached refresh.
pub data Actor : Type 0 where
  person : ℕ → Actor
  timer nobody : Actor

-- What a step depends on outside the ledger: the actor, the admins of the chats, and the two clocks,
-- Config.Now and the wall clock that ListPendingExpired reads.
pub record Cause : Type 0 where
  pub actor : Actor
  pub admin : ℕ → ℕ → Bool
  pub now : ℕ
  pub wall_now : ℕ

module _ (cause : Cause) where
  -- The actor is this user, and a player of the match or an admin of its chat.
  abbrev pub MayDecide : MatchKey → ℕ → Match → Type 0
  MayDecide k user m =
      (cause.actor ≡ person user) × ((is_player user m || cause.admin k.group user) ≡ true)

  -- Nobody, as in a refresh of the stats topic, or an admin of the chat.
  abbrev pub MayConfigure : ℕ → Type 0
  MayConfigure gid =
      (cause.actor ≡ nobody)
      ⊎ ((user : ℕ) × (cause.actor ≡ person user) × (cause.admin gid user ≡ true))

  -- A registration by the actor: by an admin it is approved at once, by another it is pending.
  pub data Registration (l : Ledger) : Ledger → Type 0 where
    registered :
        (m : Match)
        → m.match_id ≡ next_id m.group_id l
        → eqb m.player1_id m.player2_id ≡ false
        → eqb m.player1_score m.player2_score ≡ false
        → m.status ≡ initial_status (cause.admin m.group_id m.registered_by)
        → (cause.actor ≡ person m.registered_by) × (m.created_at ≡ cause.now)
        → Registration l (with_new_row m l)

  -- Any other step.
  pub data Step (l : Ledger) : Ledger → Type 0 where
    confirmed :
        (user : ℕ) (k : MatchKey) (m : Match)
        → GoMap.get k l.matches ≡ some m
        → m.status ≡ MatchStatus.pending
        → (MayDecide k user m ⊎ ((cause.actor ≡ person user) × (user ≡ m.registered_by)))
        → Step l (with_confirmation cause.now k user l)
    approved :
        (user : ℕ) (k : MatchKey) (m : Match)
        → GoMap.get k l.matches ≡ some m
        → m.status ≡ MatchStatus.pending
        → MayDecide k user m
        → ((cause.admin k.group user ≡ true)
            ⊎ (HasVoted k m.player1_id l × HasVoted k m.player2_id l))
        → Step l (with_row (record m { status = MatchStatus.approved }) l)
    cancelled :
        (user : ℕ) (k : MatchKey) (m : Match)
        → GoMap.get k l.matches ≡ some m
        → m.status ≡ MatchStatus.pending
        → MayDecide k user m
        → Step l (without_match k l)
    expired :
        (k : MatchKey) (m : Match)
        → GoMap.get k l.matches ≡ some m
        → m.status ≡ MatchStatus.pending
        → is_timed_out cause.wall_now (GoMap.get m.group_id l.groups) m ≡ true
        → cause.actor ≡ timer
        → Step l (without_match k l)
    requested :
        (user : ℕ) (k : MatchKey) (m : Match)
        → GoMap.get k l.matches ≡ some m
        → was_approved m ≡ true
        → MayDecide k user m
        → Step l (with_request cause.now k user l)
    flipped :
        (user : ℕ) (k : MatchKey) (m : Match)
        → GoMap.get k l.matches ≡ some m
        → was_approved m ≡ true
        → MayDecide k user m
        → ((cause.admin k.group user ≡ true)
            ⊎ (HasAsked k m.player1_id l × HasAsked k m.player2_id l))
        → Step l (without_requests k (with_row (record m { status = toggled m.status }) l))
    withdrawn :
        (v : VoteKey)
        → cause.actor ≡ person v.user
        → Step l (record l { undos = GoMap.delete v l.undos })
    lapsed :
        (v : VoteKey) (u : UndoCommand)
        → GoMap.get v l.undos ≡ some u
        → u.requested_at < cause.now - 24 * hour
        → cause.actor ≡ timer
        → Step l (record l { undos = GoMap.delete v l.undos })
    regrouped :
        (g : Group)
        → MayConfigure g.group_id
        → Step l (record l { groups = GoMap.put g.group_id g l.groups })

  -- Any number of steps, at most `n` of them registrations.
  pub data Steps : ℕ → Ledger → Ledger → Type 0 where
    stay : {n : ℕ} {l : Ledger} → Steps n l l
    then_step : {n : ℕ} {l k m : Ledger} → Steps n l k → Step k m → Steps n l m
    then_register : {n : ℕ} {l k m : Ledger} → Steps n l k → Registration k m → Steps (suc n) l m

  pub one : {n : ℕ} {l m : Ledger} → Step l m → Steps n l m
  one s = then_step stay s

  pub weaken : {n : ℕ} {l m : Ledger} (d : ℕ) → Steps n l m → Steps (n + d) l m
  weaken d stay = stay
  weaken d (then_step s t) = then_step (weaken d s) t
  weaken {l = l} {m = m} d (then_register {n = n} s t) =
      subst (λ c. Steps c l m) (omega arith) (then_register (weaken d s) t)

  pub join : {a b : ℕ} {k l m : Ledger} → Steps a k l → Steps b l m → Steps (a + b) k m
  join {b = b} s stay = weaken b s
  join s (then_step t u) = then_step (join s t) u
  join {a} {k = k} {m = m} s (then_register {n = n} t u) =
      subst (λ c. Steps c k m) (omega arith) (then_register (join s t) u)

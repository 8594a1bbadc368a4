-- ===== src/Ledger/Confirm.antt =====
-- What a tap on the Confirm button under a match does to the ledger (pkg/handlers/match.go).
use ttbot_repo_placeholder.Prelude.{
  ℕ, ◌≡◌, refl, sym, subst, ◌∙◌, ap, ◌<◌, ◌^◌, Bool, true, false, ◌&&◌, ◌||◌, Option, none, some,
  [], arith, eqb, if◌then◌else◌,
}
use ttbot_repo_placeholder.GoMap
use ttbot_repo_placeholder.GoMap.{GoMap, get-put}
use ttbot_repo_placeholder.Text.{Text, text}
use ttbot_repo_placeholder.Models.{Group, Match, MatchStatus, is_status}
use ttbot_repo_placeholder.Store.{
  Store, MatchKey, VoteKey, match_key, vote_key, match_key_eqb, match_key_eqb_iff, vote_key_eqb,
}
use ttbot_repo_placeholder.Store.Matches.{Found, found, not_found, get_match, update_status}
use ttbot_repo_placeholder.Store.Votes.{insert_confirmation, list_confirmations}
use ttbot_repo_placeholder.Store.Laws.{get-update_status, update_status_rest}
use ttbot_repo_placeholder.Store.Keyed.{is_some, vote, IsKeyed, any-put}
use ttbot_repo_placeholder.Messages.{CallbackQuery}
use ttbot_repo_placeholder.Bot.{Env, Bot, call, is_chat_admin, writes, start_refresh}
use ttbot_repo_placeholder.Ledger.{Ledger, ledger, ledger_of}
use ttbot_repo_placeholder.Ledger.Frame.{ledger-render_match}
use ttbot_repo_placeholder.Handlers.Replies.{call_error, call_ignored, answer}
use ttbot_repo_placeholder.Handlers.Register.{confirm_own, match_payload}
use ttbot_repo_placeholder.Handlers.Confirm.Payload.{parse_group_match_payload-match_payload}
use mathlib.Core.Path.{ap₂}
use ttbot_repo_placeholder.Handlers.Confirm.{
  parse_group_match_payload, group_or_zero, has_confirmed, may_decide, approve, await_other,
  after_confirmation, confirm_match, handle_confirm_tap,
}

-- Where both tests hold, the branch of `if` behind them is taken.
pub if_both {ℓ} :
    {A : Type ℓ} (a c : Bool) (x y : A) → a ≡ true → c ≡ true → (if a && c then x else y) ≡ x
if_both a c x y h k = rw (h, k)

module _ (env : Env) (q : CallbackQuery) where
  pub ledger-answer : (t : Text) (b : Bot) → ledger (answer env q t b).1 ≡ ledger b
  unfolding answer call_error call
  ledger-answer t b = refl

  ledger-approve :
      (gid mid : ℕ) (m : Match) (g : Group) (toast : Text) (b : Bot)
      → ledger (approve env q gid mid m g toast b).1
        ≡ ledger_of (update_status gid mid MatchStatus.approved b.store).1
  unfolding approve writes call_ignored call start_refresh answer call_error
  ledger-approve gid mid m g toast b = ledger-render_match env gid m (text "confirmed") _

  ledger-await_other :
      (payload : Text) (one two : Bool) (b : Bot)
      → ledger (await_other env q payload one two b).1 ≡ ledger b
  unfolding await_other call_ignored answer call_error call
  ledger-await_other payload one two b = refl

  -- The store with the tapping user's confirmation of the match.
  abbrev pub with_tap : ℕ → ℕ → Store → Store
  with_tap gid mid s =
      insert_confirmation
        (record { group_id = gid; match_id = mid; telegram_id = q.from.id; confirmed_at = env.now })
        s

  -- Both players are among the confirmations of the match.
  abbrev pub both_confirmed : ℕ → ℕ → Match → Store → Bool
  both_confirmed gid mid m s =
      has_confirmed m.player1_id (list_confirmations gid mid s)
      && has_confirmed m.player2_id (list_confirmations gid mid s)

  ledger-after_confirmation :
      (payload : Text) (gid mid : ℕ) (m : Match) (b : Bot)
      → ledger (after_confirmation env q payload gid mid m b).1 ≡ (
          if is_chat_admin env gid q.from.id || both_confirmed gid mid m b.store
          then ledger_of (update_status gid mid MatchStatus.approved b.store).1
          else ledger b)
  unfolding after_confirmation
  ledger-after_confirmation payload gid mid m b = ground (
    arith,
    ledger-approve gid mid m (group_or_zero gid b.store) (text "Approved by admin") b,
    ledger-approve gid mid m (group_or_zero gid b.store) (text "Confirmed") b,
    ledger-await_other payload (has_confirmed m.player1_id (list_confirmations gid mid b.store))
        (has_confirmed m.player2_id (list_confirmations gid mid b.store)) b,
  )

  pub ledger-confirm_match :
      (payload : Text) (gid mid : ℕ) (m : Match) (b : Bot)
      → ledger (confirm_match env q payload gid mid m b).1 ≡ (
          if may_decide env gid q.from.id m && is_status m.status MatchStatus.pending
          then (if is_chat_admin env gid q.from.id
                || both_confirmed gid mid m (with_tap gid mid b.store)
              then ledger_of
                  (update_status gid mid MatchStatus.approved (with_tap gid mid b.store)).1
              else ledger_of (with_tap gid mid b.store))
          else ledger b)
  unfolding confirm_match confirm_own writes
  ledger-confirm_match payload gid mid m b = ground (
    arith,
    ledger-answer [] b,
    ledger-after_confirmation payload gid mid m (record b { store = with_tap gid mid b.store }),
  )

module _ (env : Env) (q : CallbackQuery) where
  -- The user's vote counts from the tap on.
  abbrev pub voted : ℕ → ℕ → ℕ → Store → Bool
  voted gid mid id s = eqb q.from.id id || is_some (GoMap.get (vote gid mid id) s.confirmations)

  -- The confirmations of a store stand under their keys.
  abbrev pub KeyedConfirmations : Store → Type 0
  KeyedConfirmations s = IsKeyed (λ c. c.telegram_id) s.confirmations

  pub has_confirmed-with_tap :
      (gid mid id : ℕ) (s : Store)
      → KeyedConfirmations s
      → has_confirmed id (list_confirmations gid mid (with_tap env q gid mid s))
        ≡ voted gid mid id s
  unfolding has_confirmed list_confirmations insert_confirmation
  has_confirmed-with_tap gid mid id s h =
      any-put (λ c. c.telegram_id) gid mid q.from.id id _ s.confirmations refl h

  -- The row that a tap leaves: approved by an admin's tap, or once both players have voted.
  abbrev pub after_tap : ℕ → ℕ → Match → Store → Match
  after_tap gid mid m s =
      if is_chat_admin env gid q.from.id
        || (voted gid mid m.player1_id s && voted gid mid m.player2_id s)
      then record m { status = MatchStatus.approved }
      else m

  -- A store whose ledger is the given one up to the row of one match and one vote.
  pub record TapEffect (gid mid : ℕ) (m : Match) (s : Store) (l : Ledger) : Type 0 where
    pub rows :
        (k : MatchKey)
        → GoMap.get k l.matches ≡ (
            if match_key_eqb (record { group = gid; match_id = mid }) k
            then some (after_tap gid mid m s)
            else GoMap.get k s.matches)
    pub votes :
        (k : VoteKey)
        → GoMap.get k l.confirmations ≡ (
            if vote_key_eqb (vote gid mid q.from.id) k
            then some (record {
              group_id = gid;
              match_id = mid;
              telegram_id = q.from.id;
              confirmed_at = env.now;
            })
            else GoMap.get k s.confirmations)
    pub undos : l.undos ≡ s.undos
    pub counters : l.match_counters ≡ s.match_counters
    pub groups : l.groups ≡ s.groups

  module _ (gid mid : ℕ) (m : Match) (s : Store) (h : get_match gid mid s ≡ found m) where
    -- An approved row, and one that waits on.
    tapped_ledger :
        (approved : Bool)
        → approved ≡ (
            is_chat_admin env gid q.from.id
            || (voted gid mid m.player1_id s && voted gid mid m.player2_id s))
        → TapEffect gid mid m s (
            if approved
            then ledger_of (update_status gid mid MatchStatus.approved (with_tap env q gid mid s)).1
            else ledger_of (with_tap env q gid mid s))
    unfolding get_match insert_confirmation
    tapped_ledger true e =
        let rest = update_status_rest gid mid (with_tap env q gid mid s) MatchStatus.approved in
        record {
          rows = λ k. rw (← e) (
              ground (
                arith,
                get-update_status gid mid (with_tap env q gid mid s) MatchStatus.approved k,
                match_key_eqb_iff (record { group = gid; match_id = mid }) k,
              ));
          votes = λ k. rw (rest.0) (get-put (vote gid mid q.from.id) k _ s.confirmations);
          undos = rest.1;
          counters = rest.2;
          groups = rest.3;
        }
    tapped_ledger false e = record {
      rows = λ k.
          rw (← e) (ground (arith, match_key_eqb_iff (record { group = gid; match_id = mid }) k));
      votes = λ k. get-put (vote gid mid q.from.id) k _ s.confirmations;
      undos = refl;
      counters = refl;
      groups = refl;
    }

  pub both_voted :
      (gid mid : ℕ) (m : Match) (s : Store)
      → KeyedConfirmations s
      → (is_chat_admin env gid q.from.id
          || both_confirmed env q gid mid m (with_tap env q gid mid s))
        ≡ (is_chat_admin env gid q.from.id
            || (voted gid mid m.player1_id s && voted gid mid m.player2_id s))
  both_voted gid mid m s keyed = ap (◌||◌ _) (
      ap₂ ◌&&◌ (has_confirmed-with_tap gid mid m.player1_id s keyed)
        (has_confirmed-with_tap gid mid m.player2_id s keyed))

  pub ledger-handle_confirm_tap :
      (payload : Text) (gid mid : ℕ) (m : Match) (b : Bot)
      → parse_group_match_payload payload ≡ some (gid, mid)
      → get_match gid mid b.store ≡ found m
      → ledger (handle_confirm_tap env q payload b).1
        ≡ ledger (confirm_match env q payload gid mid m b).1
  unfolding handle_confirm_tap
  ledger-handle_confirm_tap payload gid mid m b p h = ground arith

  -- A tap on the Confirm button of a pending match, by one of its players or an admin of the chat,
  -- where the confirmations stand under their keys and the ids are in range, has exactly this effect:
  -- the user's confirmation is recorded; the match becomes approved if the user is an admin, or if each
  -- player is the user or has confirmed before, and else keeps its row; no other match, no other
  -- confirmation, no undo request, counter or group changes.
  pub confirm-TapEffect :
      (gid mid : ℕ) (m : Match) (b : Bot)
      → gid < 2 ^ 64
      → mid < 2 ^ 64
      → get_match gid mid b.store ≡ found m
      → m.status ≡ MatchStatus.pending
      → may_decide env gid q.from.id m ≡ true
      → KeyedConfirmations b.store
      → TapEffect gid mid m b.store (ledger (handle_confirm_tap env q (match_payload gid mid) b).1)
  unfolding is_status
  confirm-TapEffect gid mid m b hg hm h pend allowed keyed =
      let read = parse_group_match_payload-match_payload gid mid hg hm in
      let still_pending : is_status m.status MatchStatus.pending ≡ true = rw pend in
      let effect =
        ledger-handle_confirm_tap (match_payload gid mid) gid mid m b read h
        ∙ ledger-confirm_match env q (match_payload gid mid) gid mid m b
        ∙ if_both _ _ _ _ allowed still_pending in
      subst (TapEffect gid mid m b.store) (sym effect)
        (tapped_ledger gid mid m b.store h _ (both_voted gid mid m b.store keyed))

  -- A tap on the Confirm button leaves the whole ledger as it was where the payload does not parse, the
  -- match is not there, the user is neither a player of it nor an admin of the chat, or the match is
  -- not pending.
  pub confirm_tap_refused :
      (payload : Text) (b : Bot)
      → ((gid mid : ℕ) (m : Match)
          → parse_group_match_payload payload ≡ some (gid, mid)
          → get_match gid mid b.store ≡ found m
          → (may_decide env gid q.from.id m && is_status m.status MatchStatus.pending) ≡ false)
      → ledger (handle_confirm_tap env q payload b).1 ≡ ledger b
  unfolding handle_confirm_tap
  confirm_tap_refused payload b refused = elim_payload (parse_group_match_payload payload) refl
    where
      elim_row :
          (gid mid : ℕ) (r : Found Match)
          → parse_group_match_payload payload ≡ some (gid, mid)
          → get_match gid mid b.store ≡ r
          → ledger (handle_confirm_tap env q payload b).1 ≡ ledger b
      elim_row gid mid not_found p e = ground (arith, ledger-answer env q [] b)
      elim_row gid mid (found m) p e =
          ledger-handle_confirm_tap payload gid mid m b p e
          ∙ ledger-confirm_match env q payload gid mid m b
          ∙ ground (arith, refused gid mid m p e)

      elim_payload :
          (o : Option (ℕ × ℕ))
          → parse_group_match_payload payload ≡ o
          → ledger (handle_confirm_tap env q payload b).1 ≡ ledger b
      elim_payload none p = rw (p, handle_confirm_tap) (ledger-answer env q [] b)
      elim_payload (some (gid, mid)) p = elim_row gid mid (get_match gid mid b.store) p refl

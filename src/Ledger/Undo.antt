-- ===== src/Ledger/Undo.antt =====
-- What /undo does to the ledger (pkg/handlers/undo.go).
use ttbot_repo_placeholder.Prelude.{
  ℕ, ◌≡◌, refl, ◌∙◌, Bool, not, ◌&&◌, ◌||◌, Option, none, some, arith, eqb, if◌then◌else◌,
}
use ttbot_repo_placeholder.GoMap
use ttbot_repo_placeholder.Text.{Text}
use ttbot_repo_placeholder.Models.{Group, Match, MatchStatus, UndoCommand, is_status}
use ttbot_repo_placeholder.Store.{
  Store, MatchKey, VoteKey, match_key, vote_key, match_key_eqb, vote_key_eqb,
}
use ttbot_repo_placeholder.Store.Matches.{of_match, update_status}
use ttbot_repo_placeholder.Store.Votes.{insert_undo, list_undos, delete_undo, delete_undos}
use ttbot_repo_placeholder.Store.Keyed.{is_some, vote, IsKeyed, any-put, any-values_where}
use ttbot_repo_placeholder.Messages.{Message}
use ttbot_repo_placeholder.Bot.{Env, Bot, call, is_chat_admin, writes, start_refresh}
use ttbot_repo_placeholder.Ledger.{Ledger, ledger, ledger_of}
use ttbot_repo_placeholder.Ledger.Frame.{ledger-render_match}
use ttbot_repo_placeholder.Handlers.Replies.{call_error, call_ignored, reply, thumb_up}
use ttbot_repo_placeholder.Handlers.Undo.{
  has_requested, toggled, announced, toggle_match_and_announce, take_back, after_request,
  request_undo, undo_match,
}

module _ (env : Env) (m : Message) where
  ledger-announced : (g : Group) (r : _) (b : Bot) → ledger (announced env m g r b).1 ≡ ledger b
  unfolding announced start_refresh
  ledger-announced g none b = refl
  ledger-announced g (some e) b = refl

  -- The store after the status of a match is flipped and its requests are cleared.
  abbrev pub flipped : ℕ → ℕ → Match → Store → Store
  flipped gid mid row s = delete_undos gid mid (update_status gid mid (toggled row.status) s).1

  ledger-toggle :
      (g : Group) (row : Match) (b : Bot)
      → ledger (toggle_match_and_announce env m g row b).1
        ≡ ledger_of (flipped g.group_id row.match_id row b.store)
  unfolding toggle_match_and_announce writes thumb_up call_ignored call reply call_error
  ledger-toggle g row b = ledger-announced g _ _ ∙ ledger-render_match env g.group_id _ _ _

  ledger-take_back :
      (gid mid : ℕ) (b : Bot)
      → ledger (take_back env m gid mid b).1 ≡ ledger_of (delete_undo gid mid m.from.id b.store).1
  unfolding take_back writes reply call_error call
  ledger-take_back gid mid b = refl

  ledger-after_request :
      (admin : Bool) (g : Group) (mid : ℕ) (row : Match) (b : Bot)
      → ledger (after_request env m admin g mid row b).1 ≡ (
          if admin
            || (has_requested row.player1_id (list_undos g.group_id mid b.store)
                && has_requested row.player2_id (list_undos g.group_id mid b.store))
          then ledger_of (flipped g.group_id row.match_id row b.store)
          else ledger b)
  unfolding after_request thumb_up call_ignored call reply call_error
  ledger-after_request admin g mid row b = ground (arith, ledger-toggle g row b)

  -- The store with the user's request.
  abbrev pub with_request : ℕ → ℕ → Store → Store
  with_request gid mid s =
      insert_undo
        (record { group_id = gid; match_id = mid; telegram_id = m.from.id; requested_at = env.now })
        s

  abbrev pub both_requested : ℕ → ℕ → Match → Store → Bool
  both_requested gid mid row s =
      has_requested row.player1_id (list_undos gid mid s)
      && has_requested row.player2_id (list_undos gid mid s)

  -- A player of the match or an admin of the chat.
  abbrev pub may_undo : Match → Bool
  may_undo row =
      (eqb row.player1_id m.from.id || eqb row.player2_id m.from.id)
      || is_chat_admin env m.chat.id m.from.id

  abbrev pub is_played : Match → Bool
  is_played row =
      is_status row.status MatchStatus.approved || is_status row.status MatchStatus.undone

  pub ledger-undo_match :
      (g : Group) (mid : ℕ) (row : Match) (b : Bot)
      → ledger (undo_match env m g mid row b).1 ≡ (
          if may_undo row && is_played row
          then (if has_requested m.from.id (list_undos g.group_id mid b.store)
                && not (is_chat_admin env m.chat.id m.from.id)
              then ledger_of (delete_undo g.group_id mid m.from.id b.store).1
              else if is_chat_admin env m.chat.id m.from.id
                  || both_requested g.group_id mid row (with_request g.group_id mid b.store)
              then ledger_of
                  (flipped g.group_id row.match_id row (with_request g.group_id mid b.store))
              else ledger_of (with_request g.group_id mid b.store))
          else ledger b)
  unfolding undo_match request_undo writes reply call_error call
  ledger-undo_match g mid row b = ground (
    arith,
    ledger-take_back g.group_id mid b,
    ledger-after_request (is_chat_admin env m.chat.id m.from.id) g mid row
        (record b { store = with_request g.group_id mid b.store }),
  )

module _ (env : Env) (m : Message) where
  -- The requests of a store stand under their keys.
  abbrev pub KeyedUndos : Store → Type 0
  KeyedUndos s = IsKeyed (λ u. u.telegram_id) s.undos

  -- A request that was there before the command.
  abbrev pub requested : ℕ → ℕ → ℕ → Store → Bool
  requested gid mid id s = is_some (GoMap.get (vote gid mid id) s.undos)

  -- A request that counts once the command is given.
  abbrev pub asked : ℕ → ℕ → ℕ → Store → Bool
  asked gid mid id s = eqb m.from.id id || requested gid mid id s

  -- The user takes an earlier request back.
  abbrev pub withdraws : ℕ → ℕ → Store → Bool
  withdraws gid mid s = requested gid mid m.from.id s && not (is_chat_admin env m.chat.id m.from.id)

  -- The command flips the match at once.
  abbrev pub flips : ℕ → ℕ → Match → Store → Bool
  flips gid mid row s =
      is_chat_admin env m.chat.id m.from.id
      || (asked gid mid row.player1_id s && asked gid mid row.player2_id s)

  -- The requests after the command.
  abbrev pub request_after : ℕ → ℕ → Match → Store → VoteKey → Option UndoCommand
  request_after gid mid row s k =
      if withdraws gid mid s
      then (if vote_key_eqb (vote gid mid m.from.id) k then none else GoMap.get k s.undos)
      else if flips gid mid row s
      then (if of_match gid mid k then none else GoMap.get k s.undos)
      else if vote_key_eqb (vote gid mid m.from.id) k
      then some (record {
        group_id = gid;
        match_id = mid;
        telegram_id = m.from.id;
        requested_at = env.now;
      })
      else GoMap.get k s.undos

  -- The rows after the command.
  abbrev pub row_after : ℕ → ℕ → Match → Store → MatchKey → Option Match
  row_after gid mid row s k =
      if not (withdraws gid mid s)
        && (flips gid mid row s && match_key_eqb (record { group = gid; match_id = mid }) k)
      then some (record row { status = toggled row.status })
      else GoMap.get k s.matches

  -- The ledger `l` after an /undo that is let through, from the store `s`.
  pub record UndoEffect (gid mid : ℕ) (row : Match) (s : Store) (l : Ledger) : Type 0 where
    pub rows : (k : MatchKey) → GoMap.get k l.matches ≡ row_after gid mid row s k
    pub requests : (k : VoteKey) → GoMap.get k l.undos ≡ request_after gid mid row s k
    pub votes : l.confirmations ≡ s.confirmations
    pub counters : l.match_counters ≡ s.match_counters
    pub groups : l.groups ≡ s.groups

  pub has_requested-list_undos :
      (gid mid id : ℕ) (s : Store)
      → KeyedUndos s
      → has_requested id (list_undos gid mid s) ≡ requested gid mid id s
  unfolding has_requested list_undos
  has_requested-list_undos gid mid id s h =
      any-values_where (λ u. u.telegram_id) gid mid id s.undos h

  pub has_requested-with_request :
      (gid mid id : ℕ) (s : Store)
      → KeyedUndos s
      → has_requested id (list_undos gid mid (with_request env m gid mid s)) ≡ asked gid mid id s
  unfolding has_requested list_undos insert_undo
  has_requested-with_request gid mid id s h =
      any-put (λ u. u.telegram_id) gid mid m.from.id id _ s.undos refl h

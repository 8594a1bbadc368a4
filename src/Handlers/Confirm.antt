-- ===== src/Handlers/Confirm.antt =====
-- handleConfirmTap, handleCancelTap and parseGroupMatchPayload of pkg/handlers/match.go: the taps on the
-- two buttons under a pending match.
pub mod Payload
use ttbot_repo_placeholder.Prelude.{
  ℕ, Bool, not, ◌&&◌, ◌||◌, Option, none, some, List, [], ◌∷◌, ◌++◌, eqb, any, if◌then◌else◌,
}
use ttbot_repo_placeholder.Text.{Text, text, split_at}
use ttbot_repo_placeholder.Text.Decimal.{format_uint, parse_int, parse_uint}
use ttbot_repo_placeholder.Models.{Group, Match, MatchStatus, MatchConfirmation, is_status}
use ttbot_repo_placeholder.Store.{Store}
use ttbot_repo_placeholder.Store.Matches.{found, not_found, get_match, update_status, delete_match}
use ttbot_repo_placeholder.Store.Votes.{list_confirmations}
use ttbot_repo_placeholder.Store.Players.{get_group}
use ttbot_repo_placeholder.Messages.{CallbackQuery}
use ttbot_repo_placeholder.Bot.{
  Env, Act, Button, GoError, edit_message, edit_keyboard, is_chat_admin, writes, start_refresh,
  ◌>>=◌, ◌>>◌,
}
use ttbot_repo_placeholder.Names.{render_match}
use ttbot_repo_placeholder.Handlers.Register.{cb_confirm, cb_cancel, confirm_own}
use ttbot_repo_placeholder.Handlers.Replies.{call_ignored, answer}

-- parseGroupMatchPayload
unfoldable pub parse_group_match_payload : Text → Option (ℕ × ℕ)
parse_group_match_payload s = elim (split_at b':' s) [
  | none ↦ none
  | some (g, m) ↦ elim (parse_int g) [
    | none ↦ none
    | some gid ↦ elim (parse_uint m) [ none ↦ none | some mid ↦ some (gid, mid) ]
  ]
]

-- The zero value of models.Group.
unfoldable pub zero_group : Group
zero_group = record {
  group_id = 0;
  campus_id = [];
  campus_name = [];
  admin_telegram_id = 0;
  matches_topic_id = 0;
  stats_topic_id = 0;
  rankings_message_id = 0;
  stats_message_id = 0;
  rankings_elo_message_id = 0;
  rankings_glicko_message_id = 0;
  stats_elo_message_id = 0;
  stats_glicko_message_id = 0;
  confirmation_timeout_hours = 0;
  created_at = 0;
}

-- `g, _ := Groups().Get(...)`
unfoldable pub group_or_zero : ℕ → Store → Group
group_or_zero gid s = elim (get_group gid s) [ not_found ↦ zero_group | found g ↦ g ]

-- Whether a user is among the confirmations, `confirmedSet[id]`.
unfoldable pub has_confirmed : ℕ → List MatchConfirmation → Bool
has_confirmed id cs = any (λ c. eqb c.telegram_id id) cs

-- A player of the match or an admin of the chat.
unfoldable pub may_decide : Env → ℕ → ℕ → Match → Bool
may_decide env gid user m =
    (eqb user m.player1_id || eqb user m.player2_id) || is_chat_admin env gid user

module _ (env : Env) (q : CallbackQuery) where
  -- UpdateStatus to APPROVED, the new text, the refresh and the toast.
  unfoldable pub approve : ℕ → ℕ → Match → Group → Text → Act GoError
  approve gid mid m g toast = do
    writes (λ s. (update_status gid mid MatchStatus.approved s).1)
    body ← render_match env gid m (text "confirmed")
    call_ignored env (edit_keyboard q.prompt.chat_id q.prompt.message_id body [])
    start_refresh g
    answer env q toast

  -- The buttons for those who have not confirmed.
  unfoldable pub remaining_buttons : Text → Bool → Bool → List Button
  remaining_buttons payload one two =
      (if one then [] else confirm ∷ [])
      ++ ((if two then [] else confirm ∷ [])
          ++ record { label = text "Cancel"; callback = cb_cancel payload } ∷ [])
    where
      confirm : Button
      confirm = record { label = text "Confirm"; callback = cb_confirm payload }

  unfoldable pub await_other : Text → Bool → Bool → Act GoError
  await_other payload one two = do
    call_ignored env (
        edit_keyboard q.prompt.chat_id q.prompt.message_id q.prompt.text
          (remaining_buttons payload one two))
    answer env q (text "Confirmed")

  -- What follows on a recorded confirmation of a pending match.
  unfoldable pub after_confirmation : Text → ℕ → ℕ → Match → Act GoError
  after_confirmation payload gid mid m b =
      let g = group_or_zero gid b.store in
      let cs = list_confirmations gid mid b.store in
      if is_chat_admin env gid q.from.id
      then approve gid mid m g (text "Approved by admin") b
      else if has_confirmed m.player1_id cs && has_confirmed m.player2_id cs
      then approve gid mid m g (text "Confirmed") b
      else await_other payload (has_confirmed m.player1_id cs) (has_confirmed m.player2_id cs) b

  -- handleConfirmTap on a match that is there.
  unfoldable pub confirm_match : Text → ℕ → ℕ → Match → Act GoError
  confirm_match payload gid mid m =
      if not (may_decide env gid q.from.id m)
      then answer env q []
      else if not (is_status m.status MatchStatus.pending)
      then answer env q []
      else (do confirm_own env.now gid mid q.from.id; after_confirmation payload gid mid m)

  -- handleConfirmTap
  unfoldable pub handle_confirm_tap : Text → Act GoError
  handle_confirm_tap payload b = elim (parse_group_match_payload payload) [
    | none ↦ answer env q [] b
    | some (gid, mid) ↦ elim (get_match gid mid b.store) [
      | not_found ↦ answer env q [] b
      | found m ↦ confirm_match payload gid mid m b
    ]
  ]

  -- handleCancelTap on a match that is there.
  unfoldable pub cancel_match : ℕ → ℕ → Match → Act GoError
  cancel_match gid mid m =
      if not (may_decide env gid q.from.id m)
      then answer env q []
      else if not (is_status m.status MatchStatus.pending)
      then answer env q []
      else (do
        writes (λ s. (delete_match gid mid s).1)
        call_ignored env (
            edit_message q.prompt.chat_id q.prompt.message_id
              (text "Match #" ++ (format_uint mid ++ text " cancelled.")))
        answer env q (text "Cancelled"))

  -- handleCancelTap
  unfoldable pub handle_cancel_tap : Text → Act GoError
  handle_cancel_tap payload b = elim (parse_group_match_payload payload) [
    | none ↦ answer env q [] b
    | some (gid, mid) ↦ elim (get_match gid mid b.store) [
      | not_found ↦ answer env q [] b
      | found m ↦ cancel_match gid mid m b
    ]
  ]

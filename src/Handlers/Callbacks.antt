-- ===== src/Handlers/Callbacks.antt =====
-- dispatchCallback of pkg/handlers/match.go, the buttons by the prefix of their payload, and
-- handleAddParticipantTap of pkg/handlers/dm.go. A callback here has a message, since it is a tap on a
-- button.
pub mod Routing
use ttbot_repo_placeholder.Prelude.{
  ℕ, Bool, false, not, ◌&&◌, none, some, Option, List, [], ◌∷◌, ◌++◌, eqb, length, drop,
  if◌then◌else◌,
}
use ttbot_repo_placeholder.Text.{Text, text, strip_prefix, split_at}
use ttbot_repo_placeholder.Text.Decimal.{parse_int, format_int}
use ttbot_repo_placeholder.Models.{Group, Participant}
use ttbot_repo_placeholder.Validation.{username_char, digit_run}
use ttbot_repo_placeholder.Store.Matches.{found, not_found}
use ttbot_repo_placeholder.Store.Players.{get_group, upsert_participant}
use ttbot_repo_placeholder.Messages.{CallbackQuery}
use ttbot_repo_placeholder.Names.{is_empty}
use ttbot_repo_placeholder.Bot.{Env, Act, GoError, is_chat_admin, edit_message, writes, ◌>>=◌, ◌>>◌}
use ttbot_repo_placeholder.Handlers.Replies.{call_ignored, answer}
use ttbot_repo_placeholder.Handlers.Confirm.{handle_confirm_tap, handle_cancel_tap}
use ttbot_repo_placeholder.Handlers.Taps.Callback.{handle_match_interactive_callback}

-- targetLabel
unfoldable pub target_label : ℕ → Text → Text
target_label tid username =
    if is_empty username
    then text "(id " ++ (format_int tid ++ b')' ∷ [])
    else b'@' ∷ (username ++ (text " (id " ++ (format_int tid ++ b')' ∷ [])))

-- groupDisplayName
unfoldable pub group_display_name : Group → Text
group_display_name g =
    if is_empty g.campus_name then text "Group " ++ format_int g.group_id else g.campus_name

-- The longest run of [A-Za-z0-9_] at the front.
unfoldable pub name_run : Text → Text
name_run [] = []
name_run (c ∷ s) = let rest = name_run s in if username_char c then c ∷ rest else []

-- ` \(id (\d+)\)` at the front.
unfoldable pub id_part : Text → Bool
id_part s = elim (strip_prefix (text " (id ") s) [
  | none ↦ false
  | some r ↦
      not (is_empty (digit_run r))
      && (elim (drop (length (digit_run r)) r) [ [] ↦ false | c ∷ _ ↦ eqb c b')' ])
]

-- forwardedPromptRegex behind its first words: the username, "" where there is none.
unfoldable pub prompt_tail : Text → Option Text
prompt_tail s = elim (strip_prefix (text " @") s) [
  | none ↦ if id_part s then some [] else none
  | some r ↦
      if not (is_empty (name_run r)) && id_part (drop (length (name_run r)) r)
      then some (name_run r)
      else none
]

unfoldable pub prompt_here : Text → Option Text
prompt_here s = elim (strip_prefix (text "Forwarded user") s) [
  | none ↦ none
  | some r ↦ prompt_tail r
]

-- The first submatch of forwardedPromptRegex at its first match.
unfoldable pub prompt_username : Text → Option Text
prompt_username [] = none
prompt_username (c ∷ s) =
    let later = prompt_username s in elim (prompt_here (c ∷ s)) [ some u ↦ some u | none ↦ later ]

module _ (env : Env) (q : CallbackQuery) where
  -- handleAddParticipantTap in a group that is there.
  unfoldable pub add_participant : Group → ℕ → ℕ → Act GoError
  add_participant g gid tid =
      let username : Text = elim (prompt_username q.prompt.text) [ none ↦ [] | some u ↦ u ] in
      do
        writes (
            upsert_participant (record {
              group_id = gid;
              telegram_id = tid;
              telegram_username = username;
              activated_at = env.now;
            }))
        call_ignored env (
            edit_message q.prompt.chat_id q.prompt.message_id (
              text "Added "
              ++ (target_label tid username
                  ++ (text " to " ++ (group_display_name g ++ b'.' ∷ [])))))
        answer env q (text "Added")

  unfoldable pub add_to_group : ℕ → ℕ → Act GoError
  add_to_group gid tid b =
      if not (is_chat_admin env gid q.from.id)
      then answer env q (text "Not authorized.") b
      else elim (get_group gid b.store) [
        | not_found ↦ answer env q [] b
        | found g ↦ add_participant g gid tid b
      ]

  -- handleAddParticipantTap
  unfoldable pub handle_add_participant_tap : Text → Act GoError
  handle_add_participant_tap payload = elim (split_at b':' payload) [
    | none ↦ answer env q []
    | some (a, c) ↦ elim (parse_int a) [
      | none ↦ answer env q []
      | some gid ↦ elim (parse_int c) [ none ↦ answer env q [] | some tid ↦ add_to_group gid tid ]
    ]
  ]

  -- The end of dispatchCallback, behind the picker and the confirm button.
  unfoldable pub dispatch_rest : Text → Act GoError
  dispatch_rest payload_text = elim (strip_prefix (text "m:x:") payload_text) [
    | some payload ↦ handle_cancel_tap env q payload
    | none ↦ elim (strip_prefix (text "p:a:") payload_text) [
      | some payload ↦ handle_add_participant_tap payload
      | none ↦ answer env q []
    ]
  ]

  unfoldable pub dispatch_data : Text → Act GoError
  dispatch_data payload_text = elim (strip_prefix (text "m:i:") payload_text) [
    | some payload ↦ handle_match_interactive_callback env q payload
    | none ↦ elim (strip_prefix (text "m:c:") payload_text) [
      | some payload ↦ handle_confirm_tap env q payload
      | none ↦ dispatch_rest payload_text
    ]
  ]

  -- dispatchCallback
  unfoldable pub dispatch_callback : Act GoError
  dispatch_callback = dispatch_data q.payload

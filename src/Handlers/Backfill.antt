-- ===== src/Handlers/Backfill.antt =====
-- handleForwardedAdd and adminGroupsFor of pkg/handlers/dm.go: a forwarded message adds its author to
-- the participants of a group.
use ttbot_repo_placeholder.Prelude.{ℕ, List, [], ◌∷◌, ◌++◌, map, eqb, if◌then◌else◌}
use ttbot_repo_placeholder.Text.{Text, text}
use ttbot_repo_placeholder.Text.Decimal.{format_int}
use ttbot_repo_placeholder.Models.{Group}
use ttbot_repo_placeholder.Store.Players.{list_groups, upsert_participant}
use ttbot_repo_placeholder.Messages.{ChatUser, Message}
use ttbot_repo_placeholder.Bot.{
  Env, Act, GoError, Button, is_chat_admin, send_inline_keyboard, reads, writes, ◌>>=◌, ◌>>◌,
}
use ttbot_repo_placeholder.Handlers.Replies.{call_error, reply}
use ttbot_repo_placeholder.Handlers.Callbacks.{target_label, group_display_name}
use ttbot_repo_placeholder.Handlers.Group.{participant_of}

-- The button for one of several groups.
unfoldable pub group_button : ℕ → Group → Button
group_button tid g = record {
  label = group_display_name g;
  callback = text "p:a:" ++ (format_int g.group_id ++ b':' ∷ format_int tid);
}

-- The text above those buttons.
unfoldable pub group_prompt : ChatUser → Text
group_prompt u =
    text "Forwarded user " ++ (target_label u.id u.username ++ text "\nAdd to which group?")

module _ (env : Env) where
  unfoldable pub administered : ℕ → List Group → List Group
  administered user [] = []
  administered user (g ∷ gs) =
      let rest = administered user gs in
      if is_chat_admin env g.group_id user then g ∷ rest else rest

  -- adminGroupsFor
  unfoldable pub admin_groups_for : ℕ → Act (List Group)
  admin_groups_for user = do gs ← reads list_groups; λ b. (administered user gs, b)

  -- handleForwardedAdd on the groups of the sender.
  unfoldable pub add_forwarded : Message → ChatUser → List Group → Act GoError
  add_forwarded m u [] = reply env m (text "You're not an admin of any registered group.")
  add_forwarded m u (g ∷ []) = do
    writes (upsert_participant (participant_of env.now g.group_id u))
    reply env m (
        text "Added "
        ++ (target_label u.id u.username ++ (text " to " ++ (group_display_name g ++ b'.' ∷ []))))
  add_forwarded m u (g ∷ h ∷ gs) =
      call_error env
        (send_inline_keyboard m.chat.id 0 (group_prompt u) (map (group_button u.id) (g ∷ h ∷ gs)))

  -- handleForwardedAdd
  unfoldable pub handle_forwarded_add : Message → ChatUser → Act GoError
  handle_forwarded_add m u =
      if u.is_bot
      then reply env m (text "Bots can't be participants.")
      else if eqb u.id m.from.id
      then reply env m (text "That forward is from you. Forward someone else's message.")
      else (do candidates ← admin_groups_for m.from.id; add_forwarded m u candidates)

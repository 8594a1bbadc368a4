-- ===== src/Handlers/Undo.antt =====
-- handleUndo and toggleMatchAndAnnounce of pkg/handlers/undo.go.
pub mod Target
use ttbot_repo_placeholder.Prelude.{
  ℕ, Bool, not, ◌&&◌, ◌||◌, Option, none, some, List, ◌++◌, eqb, any, if◌then◌else◌,
}
use ttbot_repo_placeholder.Text.{Text, text}
use ttbot_repo_placeholder.Text.Decimal.{format_uint}
use ttbot_repo_placeholder.Models.{
  Group, Match, MatchStatus, UndoCommand, is_status, fully_configured,
}
use ttbot_repo_placeholder.Validation.{extract_match_id}
use ttbot_repo_placeholder.Store.Matches.{found, not_found, get_match, update_status}
use ttbot_repo_placeholder.Store.Votes.{list_undos, insert_undo, delete_undo, delete_undos}
use ttbot_repo_placeholder.Store.Players.{get_group}
use ttbot_repo_placeholder.Messages.{Message}
use ttbot_repo_placeholder.Bot.{
  Env, Act, GoError, is_chat_admin, writes, start_refresh, ◌>>=◌, ◌>>◌,
}
use ttbot_repo_placeholder.Names.{render_match}
use ttbot_repo_placeholder.Handlers.Replies.{reply, thumb_up}

-- The id in the arguments, or else in the message replied to.
unfoldable pub undo_target : Message → Text → Option ℕ
undo_target m args = elim (extract_match_id args) [
  | some mid ↦ some mid
  | none ↦ elim m.reply_to [ none ↦ none | some r ↦ extract_match_id r.text ]
]

unfoldable pub has_requested : ℕ → List UndoCommand → Bool
has_requested id us = any (λ u. eqb u.telegram_id id) us

unfoldable pub toggled : MatchStatus → MatchStatus
toggled s = if is_status s MatchStatus.approved then MatchStatus.undone else MatchStatus.approved

module _ (env : Env) (m : Message) where
  -- The refresh is started only if the announcement went out.
  unfoldable pub announced : Group → GoError → Act GoError
  announced g (some e) b = (some e, b)
  announced g none b = (none, (start_refresh g b).1)

  -- toggleMatchAndAnnounce
  unfoldable pub toggle_match_and_announce : Group → Match → Act GoError
  toggle_match_and_announce g row = do
    writes (λ s. (update_status g.group_id row.match_id (toggled row.status) s).1)
    writes (delete_undos g.group_id row.match_id)
    thumb_up env m
    body ←
        render_match env g.group_id (record row { status = toggled row.status })
          (if is_status row.status MatchStatus.approved then text "undone" else text "restored")
    r ← reply env m body
    announced g r

  -- The player's own request is there already: it is taken back.
  unfoldable pub take_back : ℕ → ℕ → Act GoError
  take_back gid mid = do
    writes (λ s. (delete_undo gid mid m.from.id s).1)
    reply env m (text "Undo request for Match #" ++ (format_uint mid ++ text " cancelled."))

  -- What follows on a recorded request.
  unfoldable pub after_request : Bool → Group → ℕ → Match → Act GoError
  after_request admin g mid row b =
      let us = list_undos g.group_id mid b.store in
      if admin
      then toggle_match_and_announce g row b
      else if has_requested row.player1_id us && has_requested row.player2_id us
      then toggle_match_and_announce g row b
      else (do
        thumb_up env m
        reply env m (
            text "Undo requested for Match #"
            ++ (format_uint mid ++ text ". Waiting for other player.")))
          b

  unfoldable pub request_undo : Bool → Group → ℕ → Match → Act GoError
  request_undo admin g mid row = do
    writes (
        insert_undo (record {
          group_id = g.group_id;
          match_id = mid;
          telegram_id = m.from.id;
          requested_at = env.now;
        }))
    after_request admin g mid row

  -- handleUndo on a match that is there.
  unfoldable pub undo_match : Group → ℕ → Match → Act GoError
  undo_match g mid row b =
      let participant = eqb row.player1_id m.from.id || eqb row.player2_id m.from.id in
      let admin = is_chat_admin env m.chat.id m.from.id in
      if not participant && not admin
      then reply env m (text "Only match participants or group admins can undo matches.") b
      else if not (is_status row.status MatchStatus.approved)
          && not (is_status row.status MatchStatus.undone)
      then reply env m (text "Only APPROVED matches can be undone.") b
      else if has_requested m.from.id (list_undos g.group_id mid b.store) && not admin
      then take_back g.group_id mid b
      else request_undo admin g mid row b

  unfoldable pub undo_in_group : Group → Text → Act GoError
  undo_in_group g args b = elim (undo_target m args) [
    | none ↦
        reply env m (text "Could not find match ID. Use /undo #<id> or reply to a match message.") b
    | some mid ↦ elim (get_match g.group_id mid b.store) [
      | not_found ↦
          reply env m (text "Match #" ++ (format_uint mid ++ text " not found in this group.")) b
      | found row ↦ undo_match g mid row b
    ]
  ]

  -- handleUndo
  unfoldable pub handle_undo : Text → Act GoError
  handle_undo args b = elim (get_group m.chat.id b.store) [
    | not_found ↦ (none, b)
    | found g ↦
        if not (fully_configured g)
        then (none, b)
        else if not (eqb m.thread_id g.matches_topic_id)
        then reply env m (text "/undo must be run in the matches topic of this group.") b
        else undo_in_group g args b
  ]

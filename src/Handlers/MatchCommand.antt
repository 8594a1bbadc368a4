-- ===== src/Handlers/MatchCommand.antt =====
-- handleMatch of pkg/handlers/match.go, and startInteractiveMatch of
-- pkg/handlers/match_interactive.go, with which it begins where it has no arguments.
use ttbot_repo_placeholder.Prelude.{
  ℕ, Bool, false, not, ◌||◌, none, some, List, [], ◌∷◌, ◌++◌, ltb, eqb, length, if◌then◌else◌,
}
use ttbot_repo_placeholder.Text.{Text, text, fields}
use ttbot_repo_placeholder.Models.{Group, fully_configured}
use ttbot_repo_placeholder.Validation.{
  Score, ScoreError, score_format, score_tie, score_range, parsed, refused, parse_score,
}
use ttbot_repo_placeholder.Store.Matches.{found, not_found}
use ttbot_repo_placeholder.Store.Players.{get_group}
use ttbot_repo_placeholder.Messages.{Message}
use ttbot_repo_placeholder.Bot.{
  Env, Act, Draft, Result, ok, err, GoError, error_text, send_message, send_keyboard,
  send_grid_html, call, is_chat_admin, start_refresh, ◌>>=◌, ◌>>◌, return,
}
use ttbot_repo_placeholder.Names.{has_nickname, render_match}
use ttbot_repo_placeholder.Interactive.Drafts.{store_draft}
use ttbot_repo_placeholder.Interactive.Picker.{render_opponent_picker}
use ttbot_repo_placeholder.Handlers.Replies.{call_error, reply}
use ttbot_repo_placeholder.Handlers.Register.{
  confirm_button, cancel_match_button, new_match, allocate, confirm_own,
}
use ttbot_repo_placeholder.Handlers.Resolve.{MatchPlayer, resolve_players}

unfoldable pub score_error : ScoreError → Text
score_error score_format = text "Score must look like `3-1` (non-negative integers, ≤99, not equal)"
score_error score_tie = text "Score must have a winner"
score_error score_range = text "Score values must be between 0 and 99"

module _ (env : Env) where
  -- The displays of those whom the identity service does not know.
  unfoldable pub missing_nicknames : MatchPlayer → MatchPlayer → Act (List Text)
  missing_nicknames p1 p2 = do
    one ← has_nickname env p1.telegram_id
    two ← has_nickname env p2.telegram_id
    return ((if one then [] else p1.display ∷ []) ++ (if two then [] else p2.display ∷ []))

  missing_note : List Text → List Text
  missing_note [] = []
  missing_note (a ∷ []) =
      (a
        ++ text
            " must provide an S21 nickname via @school_21_identity_bot for this to count toward ratings.")
      ∷ []
  missing_note (a ∷ b ∷ _) =
      (a
        ++ (text " and "
            ++ (b
                ++ text
                    " must each provide an S21 nickname via @school_21_identity_bot for this to count toward ratings.")))
      ∷ []

  joined : List Text → Text
  joined [] = []
  joined (n ∷ ns) = text "\n— " ++ (n ++ joined ns)

  -- The notes under the summary.
  unfoldable pub ratings_note : Bool → List Text → Text
  unfolding missing_note joined
  ratings_note admin missing =
      let notes =
        (if admin
          then []
          else text "Won't affect ratings until both players confirm (or a chat admin confirms)."
            ∷ [])
        ++ missing_note missing in
      elim notes [ [] ↦ [] | n ∷ ns ↦ b'\n' ∷ joined (n ∷ ns) ]

  appended_note : Text → Text
  appended_note [] = []
  appended_note (c ∷ s) = b'\n' ∷ c ∷ s

  -- The end of handleMatch, once the match has its id and its summary.
  unfoldable pub announce_match : Message → Group → ℕ → Bool → Text → Act GoError
  announce_match m g mid admin body =
      if admin
      then (λ b.
          let r = call env (send_message g.group_id g.matches_topic_id body) b in
          elim r.0 [ err e ↦ (some e, r.1) | ok _ ↦ (none, (start_refresh g r.1).1) ])
      else (do
        confirm_own env.now g.group_id mid m.from.id
        call_error env (
            send_keyboard g.group_id g.matches_topic_id body (confirm_button g.group_id mid)
              (cancel_match_button g.group_id mid)))

  -- handleMatch from the two resolved players on.
  unfoldable pub register_match : Message → Group → Score → MatchPlayer → MatchPlayer → Act GoError
  unfolding appended_note
  register_match m g s p1 p2 =
      if eqb p1.telegram_id p2.telegram_id
      then reply env m (text "A player cannot play themselves.")
      else (do
        let admin = is_chat_admin env m.chat.id m.from.id
        let build = new_match env.now g.group_id p1.telegram_id p2.telegram_id s m.from.id admin
        mid ← allocate build g.group_id
        body ←
            render_match env g.group_id (build mid)
              (if admin then text "registered" else text "pending")
        missing ← missing_nicknames p1 p2
        announce_match m g mid admin (
            body
            ++ (appended_note p1.note ++ (appended_note p2.note ++ ratings_note admin missing))))

  -- startInteractiveMatch
  unfoldable pub start_interactive_match : Message → Group → Act GoError
  start_interactive_match m g b = elim (render_opponent_picker g.group_id draft b.store) [
    | none ↦
        reply env m
          (text
            "No other participants yet. Wait for someone else to /ping or send a command in this group, then try again.")
          b
    | some v ↦
        let r = call env (send_grid_html g.group_id g.matches_topic_id v.body v.rows) b in
        elim r.0 [
          | err e ↦ (some e, r.1)
          | ok msg_id ↦ (
            none,
            (store_draft env.now (record { chat = g.group_id; message_id = msg_id }) v.draft r.1).1,
          )
        ]
  ]
    where
      draft : Draft
      draft = record {
        owner_id = m.from.id;
        owner_label = [];
        is_score = false;
        page = 1;
        opp_id = 0;
        opp_label = [];
        p1 = none;
        p2 = none;
        touched_at = 0;
      }

  -- The last token, and those in front of it.
  unfoldable pub split_last : Text → List Text → List Text × Text
  split_last t [] = ([], t)
  split_last t (u ∷ us) = let r = split_last u us in (t ∷ r.0, r.1)

  -- handleMatch from the result of the resolution on.
  unfoldable pub match_resolved :
      Message → Group → Score → Result (MatchPlayer × MatchPlayer) → Act GoError
  match_resolved m g s (err e) = reply env m (error_text env e)
  match_resolved m g s (ok (p1, p2)) = register_match m g s p1 p2

  -- handleMatch from its tokens on.
  unfoldable pub match_tokens : Message → Group → List Text → Act GoError
  match_tokens m g [] = start_interactive_match m g
  match_tokens m g (t ∷ ts) =
      if ltb (length ts) 1 || ltb 2 (length ts)
      then reply env m (
          text
            "Usage: /match [@player1] @player2 <s1>-<s2>, or /match alone for an interactive picker.")
      else elim (parse_score (split_last t ts).1) [
        | refused e ↦ reply env m (score_error e)
        | parsed s ↦ do r ← resolve_players env m (split_last t ts).0; match_resolved m g s r
      ]

  -- handleMatch
  unfoldable pub handle_match : Message → Text → Act GoError
  handle_match m args b = elim (get_group m.chat.id b.store) [
    | not_found ↦ (none, b)
    | found g ↦
        if not (fully_configured g)
        then reply env m
            (text "Topics not configured. Admin: run /set_matches_topic and /set_stats_topic.") b
        else if not (eqb m.thread_id g.matches_topic_id)
        then reply env m (text "/match must be run in the matches topic of this group.") b
        else match_tokens m g (fields args) b
  ]

-- ===== src/Handlers/Taps/Dispatch.antt =====
-- dispatchTap and its callers of pkg/handlers/match_interactive.go. A draft is a pointer, so a tap is a
-- function of the draft as well; the map keeps the changed draft where it still holds one.
use ttbot_repo_placeholder.Prelude.{
  ℕ, Bool, not, Option, none, some, List, [], ◌++◌, leb, eqb, length, take, if◌then◌else◌,
}
use ttbot_repo_placeholder.Text.{Text, text, split_at}
use ttbot_repo_placeholder.Text.Decimal.{parse_int}
use ttbot_repo_placeholder.Store.Matches.{found, not_found}
use ttbot_repo_placeholder.Store.Players.{get_group}
use ttbot_repo_placeholder.Messages.{CallbackQuery}
use ttbot_repo_placeholder.Bot.{
  Env, Act, Button, Draft, DraftKey, Error, Result, ok, err, GoError, call, edit_message, edit_grid,
  edit_grid_html, ◌>>=◌, ◌>>◌, return, error_text, error_of,
}
use ttbot_repo_placeholder.Names.{is_empty, player_label}
use ttbot_repo_placeholder.Interactive.Drafts.{draft_key, drop_draft}
use ttbot_repo_placeholder.Interactive.Picker.{
  View, score_max_val, render_opponent_picker, render_score_picker,
}
use ttbot_repo_placeholder.Handlers.Replies.{call_ignored, answer}
use ttbot_repo_placeholder.Handlers.Taps.{register_interactive_match}

-- truncate
unfoldable pub truncate : Text → ℕ → Text
truncate s n = if leb (length s) n then s else take n s ++ text "…"

module _ (env : Env) (q : CallbackQuery) where
  -- fmt.Errorf with "%w" at the end.
  unfoldable pub wrapped : Text → Error → Error
  wrapped what e = Error.message (what ++ error_text env e)

  unfoldable pub draft_key_of : DraftKey
  draft_key_of = record { chat = q.prompt.chat_id; message_id = q.prompt.message_id }

  -- What a tap gives back: its error, and the draft as it left it.
  abbrev Tap : Type 0
  Tap = Act (GoError × Draft)

  -- AnswerCallback as the end of a tap.
  unfoldable pub ack : Draft → Text → Tap
  ack d toast = do e ← answer env q toast; return (e, d)

  -- editAndAck. The two calls are made at the same time; of their two orders this is one.
  unfoldable pub edit_and_ack : View → Tap
  edit_and_ack v = do
    edited ← call env (edit_grid_html q.prompt.chat_id q.prompt.message_id v.body v.rows)
    answer env q []
    return (error_of edited, v.draft)

  -- The opponent picker on the draft, where there is somebody to pick.
  unfoldable pub show_opponents : Draft → Tap
  show_opponents d b = elim (render_opponent_picker q.prompt.chat_id d b.store) [
    | none ↦ ack d [] b
    | some v ↦ edit_and_ack v b
  ]

  -- The branch for "cancel".
  unfoldable pub tap_cancel : Draft → Tap
  tap_cancel d = do
    drop_draft draft_key_of
    r ← call env (edit_message q.prompt.chat_id q.prompt.message_id (text "/match cancelled."))
    elim r [
      | err e ↦ return (some (wrapped (text "edit: ") e), d)
      | ok _ ↦ ack d (text "Cancelled")
    ]

  -- The branch for "nav:".
  unfoldable pub tap_nav : Draft → Text → Tap
  tap_nav d arg = elim (parse_int arg) [
    | none ↦ ack d []
    | some page ↦ show_opponents (record d { page = page; is_score = Bool.false })
  ]

  -- The owner's label, looked up where the draft has none.
  unfoldable pub owner_label_of : Draft → Act Text
  owner_label_of d =
      if is_empty d.owner_label
      then player_label env q.prompt.chat_id d.owner_id
      else return d.owner_label

  -- The branch for "opp:" on another player's id.
  unfoldable pub pick_opponent : Draft → ℕ → Tap
  pick_opponent d tid = do
    mine ← owner_label_of d
    theirs ← player_label env q.prompt.chat_id tid
    edit_and_ack (
        render_score_picker (record d {
          owner_label = mine;
          opp_id = tid;
          opp_label = theirs;
          is_score = Bool.true;
          p1 = none;
          p2 = none;
        }))

  -- The branch for "opp:".
  unfoldable pub tap_opp : Draft → Text → Tap
  tap_opp d arg = elim (parse_int arg) [
    | none ↦ ack d []
    | some tid ↦ if eqb tid d.owner_id then ack d [] else pick_opponent d tid
  ]

  -- The branch for "back".
  unfoldable pub tap_back : Draft → Tap
  tap_back d =
      if not d.is_score
      then ack d []
      else show_opponents (record d { is_score = Bool.false; page = 1 })

  -- The switch on the side of a score.
  unfoldable pub pick_score : Draft → ℕ → ℕ → Tap
  pick_score d side v =
      if not (leb v score_max_val)
      then ack d []
      else if eqb side 1
      then edit_and_ack (render_score_picker (record d { p1 = some v }))
      else if eqb side 2
      then edit_and_ack (render_score_picker (record d { p2 = some v }))
      else ack d []

  -- The branch for "s:". A negative score is a bit pattern above the largest score.
  unfoldable pub tap_score : Draft → Text → Tap
  tap_score d arg = if not d.is_score then ack d [] else elim (split_at b':' arg) [
    | none ↦ ack d []
    | some (side, value) ↦ elim (parse_int side) [
      | none ↦ ack d []
      | some s ↦ elim (parse_int value) [ none ↦ ack d [] | some v ↦ pick_score d s v ]
    ]
  ]

  -- The branch for "confirm", once the match is registered or refused.
  unfoldable pub after_registration : Draft → Result (Text × List (List Button)) → Tap
  after_registration d (err e) = return (some (wrapped (text "registration: ") e), d)
  after_registration d (ok (summary, rows)) = do
    drop_draft draft_key_of
    call_ignored env (edit_grid q.prompt.chat_id q.prompt.message_id summary rows)
    ack d (text "Match registered")

  -- The branch for "confirm" on two different scores.
  unfoldable pub register_scores : Draft → ℕ → ℕ → Tap
  register_scores d s1 s2 b = elim (get_group q.prompt.chat_id b.store) [
    | not_found ↦ ((some (wrapped (text "group lookup: ") Error.not_found), d), b)
    | found g ↦
        (do
          r ← register_interactive_match env g d.owner_id d.opp_id (record { p1 = s1; p2 = s2 })
          after_registration d r)
          b
  ]

  -- The branch for "confirm" on the two selected scores.
  unfoldable pub confirm_scores : Draft → Option ℕ → Option ℕ → Tap
  confirm_scores d (some s1) (some s2) =
      if eqb s1 s2 then ack d (text "Score must have a winner.") else register_scores d s1 s2
  confirm_scores d _ _ = ack d (text "Pick a score for both players first.")

  -- The branch for "confirm".
  unfoldable pub tap_confirm : Draft → Tap
  tap_confirm d = if not d.is_score then ack d [] else confirm_scores d d.p1 d.p2

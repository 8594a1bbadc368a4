-- ===== src/Tests/Commands.antt =====
-- /match and the answered /undo, run on the bot of the tests.
use ttbot_repo_placeholder.Prelude.{◌≡◌, refl, none, some, [], ◌∷◌, ◌++◌, arith}
use ttbot_repo_placeholder.GoMap
use ttbot_repo_placeholder.Text.{text, fields, fields_from, is_space, split_at}
use ttbot_repo_placeholder.Text.Decimal.{is_digit, parse_uint, value_of}
use ttbot_repo_placeholder.Models.{fully_configured}
use ttbot_repo_placeholder.Validation.{
  extract_match_id, match_id_regex, parse_score, score_regex, number_part, score_of, check_score,
  parse_uint32, parse_identifier, s21_nickname_regex, all_chars, is_letter, username_char,
}
use ttbot_repo_placeholder.Store.Players.{get_group}
use ttbot_repo_placeholder.Messages.{Replied}
use ttbot_repo_placeholder.Bot.{is_chat_admin}
use ttbot_repo_placeholder.Names.{render_match}
use ttbot_repo_placeholder.Handlers.Register.{new_match}
use ttbot_repo_placeholder.Handlers.Resolve.{
  MatchPlayer, resolve_players, resolve_match_token, find_by_nickname, chosen_user,
}
use ttbot_repo_placeholder.Handlers.MatchCommand.{handle_match, split_last}
use ttbot_repo_placeholder.Handlers.Undo.{undo_target}
use ttbot_repo_placeholder.Handlers.Undo.Target.{undo_target_answered}
use ttbot_repo_placeholder.Ledger.{ledger}
use ttbot_repo_placeholder.Ledger.Register.{RegisterEffect, next_id}
use ttbot_repo_placeholder.Ledger.MatchCommand.{match_effect}
use ttbot_repo_placeholder.Tests.Data.{env, online, bot, group, approved_row, today, message}

abbrev ann : MatchPlayer
ann = record { telegram_id = 7; display = text "ann"; note = [] }

abbrev bert : MatchPlayer
bert = record { telegram_id = 8; display = text "ann"; note = [] }

-- User 7 registers a match of ann against bert.
match_effect_example :
    RegisterEffect today
      (new_match today 100 7 8
        (record { p1 = 3; p2 = 1 })
        7
        (is_chat_admin online 100 7)
        (next_id 100 (ledger bot)))
      (is_chat_admin online 100 7)
      (ledger bot)
      (ledger (handle_match online message (text "ann bert 3-1") bot).1)
unfolding get_group GoMap.get fully_configured fields fields_from is_space text split_last
    parse_score score_regex number_part score_of check_score parse_uint32 parse_uint value_of
    is_digit all_chars is_letter username_char split_at resolve_players resolve_match_token
    parse_identifier s21_nickname_regex find_by_nickname chosen_user
match_effect_example =
    match_effect online message group bot (text "ann bert 3-1") (text "ann")
      (text "bert" ∷ text "3-1" ∷ []) (record { p1 = 3; p2 = 1 }) ann bert bot refl refl refl refl
      refl refl refl refl

abbrev announced : Replied
announced = record {
  from = none;
  text = (render_match env 100 approved_row (text "registered") bot).0 ++ text "\n";
}

-- An /undo that answers the announcement of match 2.
undo_target_answered_example :
    undo_target (record message { reply_to = some announced }) [] ≡ some 2
unfolding extract_match_id match_id_regex
undo_target_answered_example =
    undo_target_answered env 100 approved_row (text "registered") (text "\n") bot
      (record message { reply_to = some announced }) announced [] refl refl refl (ground arith)

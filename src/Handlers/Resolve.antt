-- ===== src/Handlers/Resolve.antt =====
-- resolveMatchToken of pkg/handlers/match.go, with GetUsersByNickname of pkg/identity/identity.go, and
-- the choice of the two players in handleMatch.
use ttbot_repo_placeholder.Prelude.{ℕ, List, [], ◌∷◌, ◌++◌, length, if◌then◌else◌}
use ttbot_repo_placeholder.Text.{Text, text}
use ttbot_repo_placeholder.Text.Decimal.{format_int}
use ttbot_repo_placeholder.Validation.{parsed, refused, parse_identifier}
use ttbot_repo_placeholder.NickCache.{User}
use ttbot_repo_placeholder.Store.Matches.{found, not_found}
use ttbot_repo_placeholder.Store.Players.{get_by_username}
use ttbot_repo_placeholder.Messages.{Message}
use ttbot_repo_placeholder.Bot.{
  Env, Act, Error, no_healthy_login, Result, ok, err, Answer, known, unknown, failed, error_text,
}
use ttbot_repo_placeholder.Names.{display_for}

-- matchPlayer
pub record MatchPlayer : Type 0 where
  pub telegram_id : ℕ
  pub display : Text
  pub note : Text

module _ (env : Env) where
  identity_error : Error → Result MatchPlayer
  identity_error e = err (Error.message (text "Identity service error: " ++ error_text env e))

  -- GetUsersByNickname on what the client answered.
  unfoldable pub chosen_user : Text → Answer (List User) → Result MatchPlayer
  unfolding identity_error
  chosen_user nick (known []) = err (
      Error.message (
        text "Nickname "
        ++ (nick
            ++ (text " not registered. Ask user to /provide_nickname "
                ++ (nick ++ text " in @school_21_identity_bot.")))))
  chosen_user nick (known (u ∷ [])) =
      ok (record { telegram_id = u.telegram_id; display = u.nickname; note = [] })
  chosen_user nick (known (u ∷ v ∷ us)) = ok (record {
    telegram_id = u.telegram_id;
    display = u.nickname;
    note =
        text "Note: nickname "
        ++ (nick
            ++ (text " is claimed by "
                ++ (format_int (length (u ∷ v ∷ us))
                    ++ text " telegram accounts; picked the earliest.")));
  })
  chosen_user nick (failed no_healthy_login) = err (
      Error.message (
        text
          "No logged-in S21 accounts available. Anyone in this group can run /login in @ttbot (DM)."))
  chosen_user nick (failed e) = identity_error e
  chosen_user nick unknown = identity_error Error.not_found

  unfoldable pub find_by_nickname : Text → Act (Result MatchPlayer)
  find_by_nickname nick b =
      if env.identity_configured
      then (let r = env.users_by_nickname b.store.s21_accounts nick in
          (chosen_user nick r.0, record b { store = record b.store { s21_accounts = r.1 } }))
      else (
        err (Error.message (text "Identity service error: identity base URL not configured")),
        b,
      )

  unfoldable pub find_by_username : ℕ → Text → Act (Result MatchPlayer)
  find_by_username gid name b = elim (get_by_username gid name b.store) [
    | not_found ↦ (
      err (
          Error.message (
            b'@' ∷ name
            ++ text
                " hasn't joined this group yet — ask them to send /ping in the matches topic so I learn their username.")),
      b,
    )
    | found p ↦
        let r = display_for env gid p.telegram_id name b in
        (ok (record { telegram_id = p.telegram_id; display = r.0; note = [] }), r.1)
  ]

  -- resolveMatchToken
  unfoldable pub resolve_match_token : ℕ → Text → Act (Result MatchPlayer)
  resolve_match_token gid token b = elim (parse_identifier token) [
    | refused _ ↦ (err (Error.message (text "invalid identifier: " ++ token)), b)
    | parsed id ↦
        if id.is_telegram then find_by_username gid id.value b else find_by_nickname id.value b
  ]

  -- The two players of an inline /match: the tokens in front of the score.
  unfoldable pub resolve_players : Message → List Text → Act (Result (MatchPlayer × MatchPlayer))
  resolve_players m (t ∷ []) b =
      let r = display_for env m.chat.id m.from.id m.from.username b in
      let s = resolve_match_token m.chat.id t r.1 in
      elim s.0 [
        | err e ↦ (err e, s.1)
        | ok p2 ↦ (ok (record { telegram_id = m.from.id; display = r.0; note = [] }, p2), s.1)
      ]
  resolve_players m (t ∷ u ∷ []) b =
      let r = resolve_match_token m.chat.id t b in
      elim r.0 [
        | err e ↦ (err e, r.1)
        | ok p1 ↦
            let s = resolve_match_token m.chat.id u r.1 in
            elim s.0 [ err e ↦ (err e, s.1) | ok p2 ↦ (ok (p1, p2), s.1) ]
      ]
  resolve_players m _ b = (err (Error.message []), b)

-- ===== src/Ledger/Frame.antt =====
-- What leaves the ledger alone: name lookups, rendering, and the choice of the players of a match.
use ttbot_repo_placeholder.Prelude.{ℕ, ◌≡◌, refl, ◌∙◌, Option, none, some, List, [], ◌∷◌, arith}
use ttbot_repo_placeholder.Text.{Text}
use ttbot_repo_placeholder.Models.{Match, Participant}
use ttbot_repo_placeholder.NickCache
use ttbot_repo_placeholder.NickCache.{User}
use ttbot_repo_placeholder.Store.Matches.{Found, found, not_found}
use ttbot_repo_placeholder.Store.Players.{get_by_username}
use ttbot_repo_placeholder.Validation.{
  Parsed, parsed, refused, Identifier, IdentifierError, parse_identifier,
}
use ttbot_repo_placeholder.Messages.{Message}
use ttbot_repo_placeholder.Handlers.Resolve.{
  MatchPlayer, find_by_nickname, find_by_username, resolve_match_token, resolve_players,
}
use ttbot_repo_placeholder.Handlers.MatchCommand.{missing_nicknames}
use ttbot_repo_placeholder.Store.Accounts.{upsert_nick}
use ttbot_repo_placeholder.Bot.{Env, Bot}
use ttbot_repo_placeholder.Names.{
  remember, lookup_remote, lookup_durable, lookup_s21_nickname, has_nickname, player_label,
  display_for, render_match,
}
use ttbot_repo_placeholder.Ledger.{ledger}

module _ (env : Env) where
  ledger-remember :
      (tid : ℕ) (u : Option User) (b : Bot) → ledger (remember env tid u b).1 ≡ ledger b
  unfolding remember upsert_nick
  ledger-remember tid none b = refl
  ledger-remember tid (some u) b = refl

  ledger-lookup_remote : (tid : ℕ) (b : Bot) → ledger (lookup_remote env tid b).1 ≡ ledger b
  unfolding lookup_remote
  ledger-lookup_remote tid b = ledger-remember tid _ _

  ledger-lookup_durable : (tid : ℕ) (b : Bot) → ledger (lookup_durable env tid b).1 ≡ ledger b
  unfolding lookup_durable
  ledger-lookup_durable tid b = ground (arith, ledger-lookup_remote tid b)

  pub ledger-lookup_s21_nickname :
      (tid : ℕ) (b : Bot) → ledger (lookup_s21_nickname env tid b).1 ≡ ledger b
  unfolding lookup_s21_nickname
  ledger-lookup_s21_nickname tid b = ground (
    arith,
    ledger-lookup_durable tid (record b { nicks = (NickCache.get env.now tid b.nicks).1 }),
  )

  pub ledger-has_nickname : (tid : ℕ) (b : Bot) → ledger (has_nickname env tid b).1 ≡ ledger b
  unfolding has_nickname
  ledger-has_nickname tid b = ledger-lookup_s21_nickname tid b

  pub ledger-player_label :
      (gid tid : ℕ) (b : Bot) → ledger (player_label env gid tid b).1 ≡ ledger b
  unfolding player_label
  ledger-player_label gid tid b = ledger-lookup_s21_nickname tid b

  pub ledger-display_for :
      (gid tid : ℕ) (t : Text) (b : Bot) → ledger (display_for env gid tid t b).1 ≡ ledger b
  unfolding display_for
  ledger-display_for gid tid t b = ledger-lookup_s21_nickname tid b

  pub ledger-render_match :
      (gid : ℕ) (m : Match) (verb : Text) (b : Bot)
      → ledger (render_match env gid m verb b).1 ≡ ledger b
  unfolding render_match
  ledger-render_match gid m verb b =
      ledger-player_label gid m.player2_id _ ∙ ledger-player_label gid m.player1_id b

  pub ledger-find_by_nickname :
      (nick : Text) (b : Bot) → ledger (find_by_nickname env nick b).1 ≡ ledger b
  unfolding find_by_nickname
  ledger-find_by_nickname nick b = ground arith

  pub ledger-find_by_username :
      (gid : ℕ) (name : Text) (b : Bot) → ledger (find_by_username env gid name b).1 ≡ ledger b
  unfolding find_by_username
  ledger-find_by_username gid name b = elim_found (get_by_username gid name b.store) refl
    where
      elim_found :
          (f : Found Participant)
          → get_by_username gid name b.store ≡ f
          → ledger (find_by_username env gid name b).1 ≡ ledger b
      elim_found not_found e = rw (e, find_by_username)
      elim_found (found p) e =
          rw (e, find_by_username) (ledger-display_for gid p.telegram_id name b)

  pub ledger-resolve_match_token :
      (gid : ℕ) (token : Text) (b : Bot) → ledger (resolve_match_token env gid token b).1 ≡ ledger b
  unfolding resolve_match_token
  ledger-resolve_match_token gid token b = elim_parsed (parse_identifier token) refl
    where
      elim_parsed :
          (p : Parsed IdentifierError Identifier)
          → parse_identifier token ≡ p
          → ledger (resolve_match_token env gid token b).1 ≡ ledger b
      elim_parsed (refused _) e = rw (e, resolve_match_token)
      elim_parsed (parsed id) e =
          rw (e, resolve_match_token)
            (ground
              (arith, ledger-find_by_username gid id.value b, ledger-find_by_nickname id.value b))

  pub ledger-missing_nicknames :
      (p1 p2 : MatchPlayer) (b : Bot) → ledger (missing_nicknames env p1 p2 b).1 ≡ ledger b
  unfolding missing_nicknames
  ledger-missing_nicknames p1 p2 b =
      ledger-has_nickname p2.telegram_id _ ∙ ledger-has_nickname p1.telegram_id b

  pub ledger-resolve_players :
      (m : Message) (ts : List Text) (b : Bot) → ledger (resolve_players env m ts b).1 ≡ ledger b
  unfolding resolve_players
  ledger-resolve_players m [] b = refl
  ledger-resolve_players m (t ∷ []) b = ground (
    arith,
    ledger-resolve_match_token m.chat.id t
        (display_for env m.chat.id m.from.id m.from.username b).1,
    ledger-display_for m.chat.id m.from.id m.from.username b,
  )
  ledger-resolve_players m (t ∷ u ∷ []) b = ground (
    arith,
    ledger-resolve_match_token m.chat.id t b,
    ledger-resolve_match_token m.chat.id u (resolve_match_token env m.chat.id t b).1,
  )
  ledger-resolve_players m (t ∷ u ∷ v ∷ ts) b = refl

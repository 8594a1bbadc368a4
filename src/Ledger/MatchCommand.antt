-- ===== src/Ledger/MatchCommand.antt =====
-- What /match with a score does to the ledger (handleMatch of pkg/handlers/match.go).
use ttbot_repo_placeholder.Prelude.{
  ◌≡◌, sym, subst, ◌∙◌, ap, true, false, ◌||◌, List, ◌∷◌, arith, eqb, ltb, length,
}
use ttbot_repo_placeholder.Text.{Text, fields}
use ttbot_repo_placeholder.Models.{Group, fully_configured}
use ttbot_repo_placeholder.Validation.{Score, parsed, parse_score}
use ttbot_repo_placeholder.Store.Matches.{found}
use ttbot_repo_placeholder.Store.Players.{get_group}
use ttbot_repo_placeholder.Messages.{Message}
use ttbot_repo_placeholder.Bot.{Env, Bot, ok, is_chat_admin}
use ttbot_repo_placeholder.Ledger.{ledger}
use ttbot_repo_placeholder.Ledger.Frame.{ledger-resolve_players}
use ttbot_repo_placeholder.Ledger.Register.{RegisterEffect, next_id, register_match_effect}
use ttbot_repo_placeholder.Handlers.Register.{new_match}
use ttbot_repo_placeholder.Handlers.Resolve.{MatchPlayer, resolve_players}
use ttbot_repo_placeholder.Handlers.MatchCommand.{
  register_match, match_resolved, split_last, match_tokens, handle_match,
}

module _ (env : Env) (m : Message) (g : Group) (b : Bot) where
  handle_match-configured :
      (args : Text)
      → get_group m.chat.id b.store ≡ found g
      → fully_configured g ≡ true
      → m.thread_id ≡ g.matches_topic_id
      → handle_match env m args b ≡ match_tokens env m g (fields args) b
  unfolding handle_match
  handle_match-configured args hg hc ht = ground arith

  match_tokens-parsed :
      (t : Text) (ts : List Text) (s : Score) (p1 p2 : MatchPlayer) (after : Bot)
      → ltb (length ts) 1 || ltb 2 (length ts) ≡ false
      → parse_score (split_last env t ts).1 ≡ parsed s
      → resolve_players env m (split_last env t ts).0 b ≡ (ok (p1, p2), after)
      → match_tokens env m g (t ∷ ts) b ≡ register_match env m g s p1 p2 after
  unfolding match_tokens match_resolved
  match_tokens-parsed t ts s p1 p2 after hn hs hr =
      rw (hn, hs) (ap (λ r. match_resolved env m g s r.0 r.1) hr)

  -- /match in the matches topic of a group that is set up, with two or three words of which the last is
  -- a score and the others name two different players, adds one match under the next id of the group,
  -- its author's confirmation with it unless they are an admin of the chat, and changes nothing else in
  -- the ledger.
  pub match_effect :
      (args t : Text) (ts : List Text) (s : Score) (p1 p2 : MatchPlayer) (after : Bot)
      → get_group m.chat.id b.store ≡ found g
      → fully_configured g ≡ true
      → m.thread_id ≡ g.matches_topic_id
      → fields args ≡ t ∷ ts
      → ltb (length ts) 1 || ltb 2 (length ts) ≡ false
      → parse_score (split_last env t ts).1 ≡ parsed s
      → resolve_players env m (split_last env t ts).0 b ≡ (ok (p1, p2), after)
      → eqb p1.telegram_id p2.telegram_id ≡ false
      → let admin = is_chat_admin env m.chat.id m.from.id in
        RegisterEffect env.now
          (new_match env.now g.group_id p1.telegram_id p2.telegram_id s m.from.id admin
            (next_id g.group_id (ledger b)))
          admin
          (ledger b)
          (ledger (handle_match env m args b).1)
  match_effect args t ts s p1 p2 after hg hc ht hf hn hs hr d =
      let admin = is_chat_admin env m.chat.id m.from.id in
      let same : ledger after ≡ ledger b =
        sym (ap (λ r. ledger r.1) hr) ∙ ledger-resolve_players env m (split_last env t ts).0 b in
      let run =
        handle_match-configured args hg hc ht
        ∙ ap (λ ws. match_tokens env m g ws b) hf
        ∙ match_tokens-parsed t ts s p1 p2 after hn hs hr in
      subst
        (λ l.
          RegisterEffect env.now
            (new_match env.now g.group_id p1.telegram_id p2.telegram_id s m.from.id admin
              (next_id g.group_id l))
            admin l (ledger (handle_match env m args b).1))
        same
        (subst
          (RegisterEffect env.now
            (new_match env.now g.group_id p1.telegram_id p2.telegram_id s m.from.id admin
              (next_id g.group_id (ledger after)))
            admin (ledger after))
          (ap (λ r. ledger r.1) (sym run)) (register_match_effect env m g s p1 p2 after d))

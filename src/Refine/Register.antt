-- ===== src/Refine/Register.antt =====
-- The two ways to register a match, as steps.
use ttbot_repo_placeholder.Prelude.{
  ℕ, ◌≡◌, refl, sym, subst, Bool, true, false, not, ◌||◌, inl, inr, Bool-cases, List, [], ◌∷◌,
  arith, eqb, ltb, length, if_case,
}
use ttbot_repo_placeholder.GoMap
use ttbot_repo_placeholder.GoMap.{get-put, nat_eq}
use ttbot_repo_placeholder.Text.{Text, fields}
use ttbot_repo_placeholder.Models.{Group, Match, fully_configured}
use ttbot_repo_placeholder.Validation.{Score, Parsed, parsed, refused, ScoreError, parse_score}
use ttbot_repo_placeholder.Validation.Scores.{parse_score_iff}
use ttbot_repo_placeholder.Store.{Store, match_key}
use ttbot_repo_placeholder.Store.Matches.{allocate_and_insert_match}
use ttbot_repo_placeholder.Store.Players.{get_group}
use ttbot_repo_placeholder.Messages.{Message}
use ttbot_repo_placeholder.Bot.{Env, Bot, Act, GoError, Result, ok, err, is_chat_admin, call}
use ttbot_repo_placeholder.Handlers.Replies.{call_error, reply}
use ttbot_repo_placeholder.Handlers.Register.{new_match, initial_status}
use ttbot_repo_placeholder.Handlers.Resolve.{MatchPlayer, resolve_players}
use ttbot_repo_placeholder.Handlers.Taps.{register_interactive_match}
use ttbot_repo_placeholder.Handlers.MatchCommand.{
  score_error, register_match, start_interactive_match, match_resolved, split_last, match_tokens,
  handle_match,
}
use ttbot_repo_placeholder.Interactive.Drafts.{store_draft}
use ttbot_repo_placeholder.Ledger.{ledger, ledger_of}
use ttbot_repo_placeholder.Ledger.Expiry.{key_of}
use ttbot_repo_placeholder.Ledger.Frame.{ledger-resolve_players}
use ttbot_repo_placeholder.Ledger.Register.{
  next_id, with_vote, ledger-register_match, ledger-register_interactive,
}
use ttbot_repo_placeholder.Ledger.Steps.{
  person, Registration, Steps, then_register, stay, join, one, registered, confirmed, with_new_row,
}
use ttbot_repo_placeholder.Refine.{cause, Reached, Refines, found_case}
use ttbot_repo_placeholder.Refine.Undo.{group_of_chat}

module _ (env : Env) where
  module _ (gid p1 p2 : ℕ) (s : Score) (by : ℕ) (st : Store) where
    -- The new row.
    abbrev row : Match
    row = new_match env.now gid p1 p2 s by (is_chat_admin env gid by) (next_id gid (ledger_of st))

    allocated :
        ledger_of
          (allocate_and_insert_match gid
            (new_match env.now gid p1 p2 s by (is_chat_admin env gid by))
            st).1
        ≡ with_new_row row (ledger_of st)
    unfolding allocate_and_insert_match new_match
    allocated = refl

    register_step :
        eqb p1 p2 ≡ false
        → eqb s.p1 s.p2 ≡ false
        → Registration (cause env (person by)) (ledger_of st) (with_new_row row (ledger_of st))
    unfolding new_match
    register_step d e = registered row refl d e refl (refl, refl)

    vote_steps :
        (admin : Bool)
        → is_chat_admin env gid by ≡ admin
        → let l = with_new_row row (ledger_of st) in
          Steps
            (cause env (person by))
            0
            l
            (with_vote env gid (next_id gid (ledger_of st)) by admin l)
    unfolding new_match initial_status
    vote_steps true a = stay
    vote_steps false a = one _ (
        confirmed by (key_of row) row
          (ground (arith, get-put (key_of row) (key_of row) row st.matches)) (ground (arith, a))
          (inr (refl, refl)))

    pub register_steps :
        eqb p1 p2 ≡ false
        → eqb s.p1 s.p2 ≡ false
        → let r =
            allocate_and_insert_match gid
              (new_match env.now gid p1 p2 s by (is_chat_admin env gid by))
              st in
          Steps
            (cause env (person by))
            1
            (ledger_of st)
            (with_vote env gid r.0 by (is_chat_admin env gid by) (ledger_of r.1))
    unfolding allocate_and_insert_match GoMap.get new_match
    register_steps d e =
        join (cause env (person by)) (then_register {n = 0} stay (register_step d e))
          (vote_steps _ refl)

  refused_interactive :
      (g : Group) (owner opp : ℕ) (s : Score) (b : Bot)
      → eqb owner opp ≡ true
      → ledger (register_interactive_match env g owner opp s b).1 ≡ ledger b
  unfolding register_interactive_match
  refused_interactive g owner opp s b e = rw (e) refl

  pub register_interactive-Refines :
      (g : Group) (owner opp : ℕ) (s : Score)
      → eqb s.p1 s.p2 ≡ false
      → Refines env (person owner) 1 (register_interactive_match env g owner opp s)
  register_interactive-Refines g owner opp s e b w = elim (Bool-cases (eqb owner opp)) [
    | inl same ↦
        subst (Steps (cause env (person owner)) 1 (ledger b))
          (sym (refused_interactive g owner opp s b same)) stay
    | inr other ↦
        subst (Steps (cause env (person owner)) 1 (ledger b))
          (sym (ledger-register_interactive env g owner opp s b other))
          (register_steps g.group_id owner opp s owner b.store other e)
  ]

  refused_match :
      (m : Message) (g : Group) (s : Score) (p1 p2 : MatchPlayer) (b : Bot)
      → eqb p1.telegram_id p2.telegram_id ≡ true
      → ledger (register_match env m g s p1 p2 b).1 ≡ ledger b
  unfolding register_match reply call_error call
  refused_match m g s p1 p2 b e = rw (e) refl

  registered_match-Reached :
      (m : Message) (g : Group) (s : Score) (p1 p2 : MatchPlayer) (b : Bot)
      → m.chat.id ≡ g.group_id
      → eqb s.p1 s.p2 ≡ false
      → eqb p1.telegram_id p2.telegram_id ≡ false
      → Reached env (person m.from.id) 1 b (register_match env m g s p1 p2 b)
  registered_match-Reached m g s p1 p2 b c e d =
      subst (Steps (cause env (person m.from.id)) 1 (ledger b))
        (sym (ledger-register_match env m g s p1 p2 b d))
        (subst
          (λ x.
            let admin = is_chat_admin env x m.from.id in
            let r =
              allocate_and_insert_match g.group_id
                (new_match env.now g.group_id p1.telegram_id p2.telegram_id s m.from.id admin)
                b.store in
            Steps (cause env (person m.from.id)) 1 (ledger b)
              (with_vote env g.group_id r.0 m.from.id admin (ledger_of r.1)))
          (sym c) (register_steps g.group_id p1.telegram_id p2.telegram_id s m.from.id b.store d e))

  register_match-Reached :
      (m : Message) (g : Group) (s : Score) (p1 p2 : MatchPlayer) (b : Bot)
      → m.chat.id ≡ g.group_id
      → eqb s.p1 s.p2 ≡ false
      → Reached env (person m.from.id) 1 b (register_match env m g s p1 p2 b)
  register_match-Reached m g s p1 p2 b c e = elim (Bool-cases (eqb p1.telegram_id p2.telegram_id)) [
    | inl same ↦
        subst (Steps (cause env (person m.from.id)) 1 (ledger b))
          (sym (refused_match m g s p1 p2 b same)) stay
    | inr other ↦ registered_match-Reached m g s p1 p2 b c e other
  ]

  match_resolved-Reached :
      (m : Message) (g : Group) (s : Score) (r : Result (MatchPlayer × MatchPlayer)) (b : Bot)
      → m.chat.id ≡ g.group_id
      → eqb s.p1 s.p2 ≡ false
      → Reached env (person m.from.id) 1 b (match_resolved env m g s r b)
  unfolding match_resolved reply call_error call
  match_resolved-Reached m g s (err x) b c e = stay
  match_resolved-Reached m g s (ok (p1, p2)) b c e = register_match-Reached m g s p1 p2 b c e

  start_interactive-kept :
      (m : Message) (g : Group) (b : Bot) → ledger (start_interactive_match env m g b).1 ≡ ledger b
  unfolding start_interactive_match reply call_error call store_draft
  start_interactive-kept m g b = ground arith

  -- A score that is read has a winner.
  decided : (t : Text) (s : Score) → parse_score t ≡ parsed s → eqb s.p1 s.p2 ≡ false
  decided t s h = ground (arith, ((parse_score_iff t s).0 h).1.decided)

  parsed-Reached :
      (m : Message) (g : Group) (ts : List Text) (s : Score) (b : Bot)
      → m.chat.id ≡ g.group_id
      → eqb s.p1 s.p2 ≡ false
      → let r = resolve_players env m ts b in
        Reached env (person m.from.id) 1 b (match_resolved env m g s r.0 r.1)
  parsed-Reached m g ts s b c e =
      let r = resolve_players env m ts b in
      subst
        (λ l.
          Steps (cause env (person m.from.id)) 1 l (ledger (match_resolved env m g s r.0 r.1).1))
        (ledger-resolve_players env m ts b) (match_resolved-Reached m g s r.0 r.1 c e)

  score-Reached :
      (m : Message) (g : Group) (ts : List Text) (t : Text) (p : Parsed ScoreError Score) (b : Bot)
      → parse_score t ≡ p
      → m.chat.id ≡ g.group_id
      → let step : Act GoError = elim p [
        | refused e ↦ reply env m (score_error e)
        | parsed s ↦ λ b. let r = resolve_players env m ts b in match_resolved env m g s r.0 r.1
      ] in
        Reached env (person m.from.id) 1 b (step b)
  unfolding reply call_error call
  score-Reached m g ts t (refused e) b h c = stay
  score-Reached m g ts t (parsed s) b h c = parsed-Reached m g ts s b c (decided t s h)

  match_tokens-Reached :
      (m : Message) (g : Group) (ts : List Text) (b : Bot)
      → m.chat.id ≡ g.group_id
      → Reached env (person m.from.id) 1 b (match_tokens env m g ts b)
  unfolding match_tokens reply call_error call
  match_tokens-Reached m g [] b c =
      subst (Steps (cause env (person m.from.id)) 1 (ledger b)) (sym (start_interactive-kept m g b))
        stay
  match_tokens-Reached m g (t ∷ ts) b c =
      if_case {R = Act GoError} (λ step. Reached env (person m.from.id) 1 b (step b))
        (ltb (length ts) 1 || ltb 2 (length ts)) (λ _. stay)
        (λ _.
          score-Reached m g (split_last env t ts).0 (split_last env t ts).1
            (parse_score (split_last env t ts).1) b refl c)

  pub match-Refines :
      (m : Message) (args : Text) → Refines env (person m.from.id) 1 (handle_match env m args)
  unfolding handle_match reply call_error call
  match-Refines m args b w =
      found_case (Reached env (person m.from.id) 1 b) (get_group m.chat.id b.store)
        (λ g h.
          if_case (Reached env (person m.from.id) 1 b) (not (fully_configured g)) (λ _. stay)
            (λ _.
              if_case (Reached env (person m.from.id) 1 b)
                (not (eqb m.thread_id g.matches_topic_id)) (λ _. stay)
                (λ _. match_tokens-Reached m g (fields args) b (group_of_chat env m g b w h))))
        (λ _. stay)

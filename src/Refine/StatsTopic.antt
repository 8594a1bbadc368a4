-- ===== src/Refine/StatsTopic.antt =====
-- The refresh of the stats topic and /set_stats_topic, as steps: at most the group's row is written.
use ttbot_repo_placeholder.Prelude.{
  ℕ, suc, ◌≡◌, refl, ◌∙◌, Bool, true, false, not, none, some, Option, List, [], ◌∷◌, arith, eqb,
  if_case, option_case,
}
use ttbot_repo_placeholder.GoMap
use ttbot_repo_placeholder.GoMap.{GoMap, nat_eq}
use ttbot_repo_placeholder.Text.{Text, text}
use ttbot_repo_placeholder.Models.{Group, fully_configured}
use ttbot_repo_placeholder.Store.Players.{upsert_group}
use ttbot_repo_placeholder.Messages.{Message}
use ttbot_repo_placeholder.Bot.{Env, Bot, Act, Result, ok, err, GoError, call, writes, reads}
use ttbot_repo_placeholder.Handlers.Replies.{call_error, call_ignored, reply}
use ttbot_repo_placeholder.Handlers.Group.StatsCommand.{
  with_stats_topic, bind_stats_topic, set_stats_topic, handle_set_stats_topic,
}
use ttbot_repo_placeholder.Ratings.{Floats, Engine, PlayerRatings}
use ttbot_repo_placeholder.Ratings.Elo.{new_elo}
use ttbot_repo_placeholder.Handlers.Rankings.{
  period_days, check_players, compute_ratings_for, label_for, ranking_lines, rankings_text, ranked,
  render_rankings, stats_blocks, stats_text, combined, with_glicko, render_combined_stats,
}
use ttbot_repo_placeholder.Handlers.Rankings.StatsTopic.{
  pin_if, after_send, post_message, after_edit, upsert_message, drop_message, drop_orphans,
  post_elo, without_orphans, has_orphans, save_if, posted_stats, post_stats, posted_glicko,
  post_glicko, posted_elo, post_all, with_stats, with_glicko_text, with_elo_text, refresh_with,
  refresh_stats_topic,
}
use ttbot_repo_placeholder.Ledger.{ledger}
use ttbot_repo_placeholder.Ledger.Frame.{ledger-has_nickname, ledger-player_label}
use ttbot_repo_placeholder.Ledger.Steps.{Actor, MayConfigure, person, stay, one, regrouped}
use ttbot_repo_placeholder.Refine.Groups.{upsert_group-Refines, configured-Refines}
use ttbot_repo_placeholder.Refine.{
  cause, Reached, Refines, keeps-Refines, then-Refines, after-Refines,
}

module _ (env : Env) (actor : Actor) where
  upsert_message-kept :
      (gid topic stored : ℕ) (body : Text) (pin : Bool) (b : Bot)
      → ledger (upsert_message env gid topic stored body pin b).1 ≡ ledger b
  unfolding upsert_message after_edit post_message after_send pin_if call_ignored call
  upsert_message-kept gid topic stored body pin b = ground arith

  upsert_message-Refines :
      (gid topic stored : ℕ) (body : Text) (pin : Bool)
      → Refines env actor 0 (upsert_message env gid topic stored body pin)
  upsert_message-Refines gid topic stored body pin =
      keeps-Refines env actor (upsert_message env gid topic stored body pin)
        (upsert_message-kept gid topic stored body pin)

  save-Refines :
      (dirty : Bool) (g : Group) (may : MayConfigure (cause env actor) g.group_id)
      → Refines env actor 0 (save_if env dirty g)
  unfolding save_if writes upsert_group
  save-Refines true g may b w = one _ (regrouped g may)
  save-Refines false g may b w = stay

  posted_stats-Refines :
      (g : Group) (may : MayConfigure (cause env actor) g.group_id) (dirty : Bool)
      (r : Result (ℕ × Bool))
      → Refines env actor 0 (posted_stats env g dirty r)
  unfolding posted_stats
  posted_stats-Refines g may dirty (err e) b w = stay
  posted_stats-Refines g may dirty (ok (id, true)) b w = save-Refines true _ may b w
  posted_stats-Refines g may dirty (ok (id, false)) b w = save-Refines dirty g may b w

  post_stats-Refines :
      (stats : Text) (g : Group) (may : MayConfigure (cause env actor) g.group_id) (dirty : Bool)
      → Refines env actor 0 (post_stats env stats g dirty)
  unfolding post_stats
  post_stats-Refines stats g may dirty =
      then-Refines env actor {c = 0}
        (upsert_message env g.group_id g.stats_topic_id g.stats_message_id stats true)
        (posted_stats env g dirty) (upsert_message-Refines _ _ _ _ _)
        (posted_stats-Refines g may dirty)

  posted_glicko-Refines :
      (stats : Text) (g : Group) (may : MayConfigure (cause env actor) g.group_id) (dirty : Bool)
      (r : Result (ℕ × Bool))
      → Refines env actor 0 (posted_glicko env stats g dirty r)
  unfolding posted_glicko
  posted_glicko-Refines stats g may dirty (err e) b w = stay
  posted_glicko-Refines stats g may dirty (ok (id, true)) b w =
      post_stats-Refines stats _ may true b w
  posted_glicko-Refines stats g may dirty (ok (id, false)) b w =
      post_stats-Refines stats g may dirty b w

  post_glicko-Refines :
      (glicko stats : Text) (g : Group) (may : MayConfigure (cause env actor) g.group_id)
      (dirty : Bool)
      → Refines env actor 0 (post_glicko env glicko stats g dirty)
  unfolding post_glicko
  post_glicko-Refines glicko stats g may dirty =
      then-Refines env actor {c = 0}
        (upsert_message env g.group_id g.stats_topic_id g.rankings_glicko_message_id glicko false)
        (posted_glicko env stats g dirty) (upsert_message-Refines _ _ _ _ _)
        (posted_glicko-Refines stats g may dirty)

  posted_elo-Refines :
      (glicko stats : Text) (g : Group) (may : MayConfigure (cause env actor) g.group_id)
      (dirty : Bool) (r : Result (ℕ × Bool))
      → Refines env actor 0 (posted_elo env glicko stats g dirty r)
  unfolding posted_elo
  posted_elo-Refines glicko stats g may dirty (err e) b w = stay
  posted_elo-Refines glicko stats g may dirty (ok (id, true)) b w =
      post_glicko-Refines glicko stats _ may true b w
  posted_elo-Refines glicko stats g may dirty (ok (id, false)) b w =
      post_glicko-Refines glicko stats g may dirty b w

  drop_message-kept : (gid id : ℕ) (b : Bot) → ledger (drop_message env gid id b).1 ≡ ledger b
  unfolding drop_message call_ignored call
  drop_message-kept gid id b = ground arith

  drop_orphans-kept : (g : Group) (b : Bot) → ledger (drop_orphans env g b).1 ≡ ledger b
  unfolding drop_orphans
  drop_orphans-kept g b =
      drop_message-kept g.group_id g.stats_glicko_message_id _
      ∙ drop_message-kept g.group_id g.stats_elo_message_id _
      ∙ drop_message-kept g.group_id g.rankings_message_id b

  post_elo-Refines :
      (elo glicko stats : Text) (g : Group) (may : MayConfigure (cause env actor) g.group_id)
      → Refines env actor 0 (post_elo env elo glicko stats g)
  unfolding post_elo without_orphans
  post_elo-Refines elo glicko stats g may =
      then-Refines env actor {c = 0}
        (upsert_message env g.group_id g.stats_topic_id g.rankings_elo_message_id elo false)
        (posted_elo env glicko stats (without_orphans env g) (has_orphans env g))
        (upsert_message-Refines _ _ _ _ _) (posted_elo-Refines glicko stats _ may _)

  pub post_all-Refines :
      (elo glicko stats : Text) (g : Group) (may : MayConfigure (cause env actor) g.group_id)
      → Refines env actor 0 (post_all env elo glicko stats g)
  unfolding post_all
  post_all-Refines elo glicko stats g may =
      after-Refines env actor {c = 0} (drop_orphans env g) (post_elo env elo glicko stats g)
        (keeps-Refines env actor (drop_orphans env g) (drop_orphans-kept g))
        (post_elo-Refines elo glicko stats g may)

module _ {F : Type 0} (fl : Floats F) (env : Env) where
  check_players-kept :
      (ids : List ℕ) (n : GoMap ℕ Bool) (b : Bot)
      → ledger (check_players fl env ids n b).1 ≡ ledger b
  unfolding check_players
  check_players-kept [] n b = refl
  check_players-kept (id ∷ ids) n b =
      option_case {R = Act (GoMap ℕ Bool)} (λ step. ledger (step b).1 ≡ ledger b) (GoMap.get id n)
        (λ _. check_players-kept ids _ _ ∙ ledger-has_nickname env id b)
        (λ _ _. check_players-kept ids n b)

  compute-kept :
      (g : Group) (engine : Engine F) (b : Bot)
      → ledger (compute_ratings_for fl env g engine b).1 ≡ ledger b
  unfolding compute_ratings_for reads
  compute-kept g engine b = check_players-kept _ [] b

  ranking_lines-kept :
      (gid : ℕ) (pr : PlayerRatings F) (i : ℕ) (ids : List Text) (b : Bot)
      → ledger (ranking_lines fl env gid pr i ids b).1 ≡ ledger b
  unfolding ranking_lines label_for
  ranking_lines-kept gid pr i [] b = refl
  ranking_lines-kept gid pr i (id ∷ ids) b =
      ranking_lines-kept gid pr (suc i) ids _ ∙ ledger-player_label env gid _ b

  ranked-kept :
      (g : Group) (label : Text) (r : Result (PlayerRatings F)) (b : Bot)
      → ledger (ranked fl env g label r b).1 ≡ ledger b
  unfolding ranked rankings_text
  ranked-kept g label (err e) b = refl
  ranked-kept g label (ok []) b = refl
  ranked-kept g label (ok (e ∷ pr)) b = ranking_lines-kept g.group_id (e ∷ pr) 1 _ b

  rankings-kept :
      (g : Group) (engine : Engine F) (label : Text) (b : Bot)
      → ledger (render_rankings fl env g engine label b).1 ≡ ledger b
  unfolding render_rankings
  rankings-kept g engine label b = ranked-kept g label _ _ ∙ compute-kept g engine b

  stats_blocks-kept :
      (gid : ℕ) (elo glicko : PlayerRatings F) (ids : List Text) (b : Bot)
      → ledger (stats_blocks fl env gid elo glicko ids b).1 ≡ ledger b
  unfolding stats_blocks label_for
  stats_blocks-kept gid elo glicko [] b = refl
  stats_blocks-kept gid elo glicko (id ∷ ids) b =
      stats_blocks-kept gid elo glicko ids _ ∙ ledger-player_label env gid _ b

  stats_text-kept :
      (g : Group) (elo glicko : PlayerRatings F) (b : Bot)
      → ledger (stats_text fl env g elo glicko b).1 ≡ ledger b
  unfolding stats_text
  stats_text-kept g [] [] b = refl
  stats_text-kept g [] (e ∷ glicko) b = stats_blocks-kept g.group_id [] (e ∷ glicko) _ b
  stats_text-kept g (e ∷ elo) glicko b = stats_blocks-kept g.group_id (e ∷ elo) glicko _ b

  combined-kept :
      (g : Group) (r1 r2 : Result (PlayerRatings F)) (b : Bot)
      → ledger (combined fl env g r1 r2 b).1 ≡ ledger b
  unfolding combined
  combined-kept g (ok elo) (ok glicko) b = stats_text-kept g elo glicko b
  combined-kept g (ok elo) (err e) b = refl
  combined-kept g (err e) r2 b = refl

  with_glicko-kept :
      (g : Group) (engine : Engine F) (r : Result (PlayerRatings F)) (b : Bot)
      → ledger (with_glicko fl env g engine r b).1 ≡ ledger b
  unfolding with_glicko
  with_glicko-kept g engine (err e) b = refl
  with_glicko-kept g engine (ok pr) b = combined-kept g (ok pr) _ _ ∙ compute-kept g engine b

  combined_stats-kept :
      (g : Group) (elo glicko : Engine F) (b : Bot)
      → ledger (render_combined_stats fl env g elo glicko b).1 ≡ ledger b
  unfolding render_combined_stats
  combined_stats-kept g elo glicko b = with_glicko-kept g glicko _ _ ∙ compute-kept g elo b

module _ {F : Type 0} (fl : Floats F) (env : Env) (actor : Actor) (new_glicko2 : ℕ → Engine F)
    (default : ℕ) where
  with_stats-Refines :
      (g : Group) (may : MayConfigure (cause env actor) g.group_id) (elo glicko : Text)
      (r : Result Text)
      → Refines env actor 0 (with_stats fl env new_glicko2 default g elo glicko r)
  unfolding with_stats
  with_stats-Refines g may elo glicko (err e) b w = stay
  with_stats-Refines g may elo glicko (ok t) b w = post_all-Refines env actor elo glicko t g may b w

  with_glicko_text-Refines :
      (g : Group) (may : MayConfigure (cause env actor) g.group_id) (engine : Engine F) (elo : Text)
      (r : Result Text)
      → Refines env actor 0 (with_glicko_text fl env new_glicko2 default g engine elo r)
  unfolding with_glicko_text
  with_glicko_text-Refines g may engine elo (err e) b w = stay
  with_glicko_text-Refines g may engine elo (ok t) b w =
      then-Refines env actor {c = 0} (render_combined_stats fl env g (new_elo fl) engine)
        (with_stats fl env new_glicko2 default g elo t)
        (keeps-Refines env actor (render_combined_stats fl env g (new_elo fl) engine)
          (combined_stats-kept fl env g (new_elo fl) engine))
        (with_stats-Refines g may elo t) b w

  with_elo_text-Refines :
      (g : Group) (may : MayConfigure (cause env actor) g.group_id) (engine : Engine F)
      (r : Result Text)
      → Refines env actor 0 (with_elo_text fl env new_glicko2 default g engine r)
  unfolding with_elo_text
  with_elo_text-Refines g may engine (err e) b w = stay
  with_elo_text-Refines g may engine (ok t) b w =
      then-Refines env actor {c = 0} (render_rankings fl env g engine (text "Glicko-2 Rankings"))
        (with_glicko_text fl env new_glicko2 default g engine t)
        (keeps-Refines env actor (render_rankings fl env g engine (text "Glicko-2 Rankings"))
          (rankings-kept fl env g engine (text "Glicko-2 Rankings")))
        (with_glicko_text-Refines g may engine t) b w

  refresh_with-Refines :
      (g : Group) (may : MayConfigure (cause env actor) g.group_id) (engine : Engine F)
      → Refines env actor 0 (refresh_with fl env new_glicko2 default g engine)
  unfolding refresh_with
  refresh_with-Refines g may engine =
      then-Refines env actor {c = 0} (render_rankings fl env g (new_elo fl) (text "ELO Rankings"))
        (with_elo_text fl env new_glicko2 default g engine)
        (keeps-Refines env actor (render_rankings fl env g (new_elo fl) (text "ELO Rankings"))
          (rankings-kept fl env g (new_elo fl) (text "ELO Rankings")))
        (with_elo_text-Refines g may engine)

  pub refresh-Refines :
      (g : Group) (may : MayConfigure (cause env actor) g.group_id)
      → Refines env actor 0 (refresh_stats_topic fl env new_glicko2 default g)
  unfolding refresh_stats_topic reads
  refresh-Refines g may b w =
      if_case {R = Act GoError} (λ step. Reached env actor 0 b (step b)) (not (fully_configured g))
        (λ _. stay)
        (λ _. refresh_with-Refines g may (new_glicko2 (period_days default b.store)) b w)

  -- The write and the refresh of bindStatsTopic; the reply keeps the ledger.
  bind-Refines :
      (m : Message) (g : Group) (may : MayConfigure (cause env actor) g.group_id)
      → Refines env actor 0 (bind_stats_topic fl env new_glicko2 default m g)
  unfolding bind_stats_topic reply call_error call
  bind-Refines m g may b w =
      after-Refines env actor {c = 0} (writes (upsert_group g))
        (refresh_stats_topic fl env new_glicko2 default g) (upsert_group-Refines env actor g may)
        (refresh-Refines g may) b w

  set_stats-Refines :
      (m : Message) (g : Option Group)
      → ((h : Group) → g ≡ some h → MayConfigure (cause env actor) h.group_id)
      → Refines env actor 0 (set_stats_topic fl env new_glicko2 default m g)
  unfolding set_stats_topic with_stats_topic reply call_error call
  set_stats-Refines m none may b w = stay
  set_stats-Refines m (some g) may b w =
      if_case {R = Act GoError} (λ step. Reached env actor 0 b (step b)) (eqb m.thread_id 0)
        (λ _. stay) (λ _. bind-Refines m (with_stats_topic g m.thread_id) (may g refl) b w)

module _ {F : Type 0} (fl : Floats F) (env : Env) (new_glicko2 : ℕ → Engine F) (default : ℕ) where
  pub set_stats_topic-Refines :
      (m : Message)
      → Refines env (person m.from.id) 0 (handle_set_stats_topic fl env new_glicko2 default m)
  unfolding handle_set_stats_topic
  set_stats_topic-Refines m =
      configured-Refines env m (set_stats_topic fl env new_glicko2 default m)
        (set_stats-Refines fl env (person m.from.id) new_glicko2 default m)

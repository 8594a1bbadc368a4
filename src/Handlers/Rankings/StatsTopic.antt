-- ===== src/Handlers/Rankings/StatsTopic.antt =====
-- refreshStatsTopic and upsertMessage of pkg/handlers/rankings.go. The group is a value: the refresh
-- writes back the row that it was given, with the ids of the messages that it has posted.
use ttbot_repo_placeholder.Prelude.{ℕ, Bool, true, false, not, ◌||◌, none, some, eqb, if◌then◌else◌}
use ttbot_repo_placeholder.Text.{Text, text}
use ttbot_repo_placeholder.Models.{Group, fully_configured}
use ttbot_repo_placeholder.Store.Players.{upsert_group}
use ttbot_repo_placeholder.Bot.{
  Env, Act, Error, Result, ok, err, GoError, call, edit_message, send_message, pin_message,
  delete_message, reads, writes, ◌>>=◌, ◌>>◌, return,
}
use ttbot_repo_placeholder.Handlers.Replies.{call_ignored}
use ttbot_repo_placeholder.Ratings.{Floats, Engine}
use ttbot_repo_placeholder.Ratings.Elo.{new_elo}
use ttbot_repo_placeholder.Handlers.Rankings.{period_days, render_rankings, render_combined_stats}

module _ (env : Env) where
  unfoldable pub pin_if : Bool → ℕ → ℕ → Act (Unit {0})
  pin_if true gid id = call_ignored env (pin_message gid id)
  pin_if false gid id = return tt

  unfoldable pub after_send : ℕ → Bool → Result ℕ → Act (Result (ℕ × Bool))
  after_send gid pin (err e) = return (err e)
  after_send gid pin (ok id) = do pin_if pin gid id; return (ok (id, true))

  -- The end of upsertMessage, where there is no message to edit.
  unfoldable pub post_message : ℕ → ℕ → Text → Bool → Act (Result (ℕ × Bool))
  post_message gid topic body pin = do
    r ← call env (send_message gid topic body)
    after_send gid pin r

  unfoldable pub after_edit : ℕ → ℕ → ℕ → Text → Bool → Result ℕ → Act (Result (ℕ × Bool))
  after_edit gid topic stored body pin (err Error.not_found) = post_message gid topic body pin
  after_edit gid topic stored body pin _ = return (ok (stored, false))

  -- upsertMessage
  unfoldable pub upsert_message : ℕ → ℕ → ℕ → Text → Bool → Act (Result (ℕ × Bool))
  upsert_message gid topic stored body pin =
      if eqb stored 0
      then post_message gid topic body pin
      else (do r ← call env (edit_message gid stored body); after_edit gid topic stored body pin r)

  unfoldable pub drop_message : ℕ → ℕ → Act (Unit {0})
  drop_message gid id = if eqb id 0 then return tt else call_ignored env (delete_message gid id)

  -- The group without the messages of earlier versions.
  unfoldable pub without_orphans : Group → Group
  without_orphans g = record g {
    rankings_message_id = 0;
    stats_elo_message_id = 0;
    stats_glicko_message_id = 0;
  }

  unfoldable pub has_orphans : Group → Bool
  has_orphans g =
      not (eqb g.rankings_message_id 0)
      || (not (eqb g.stats_elo_message_id 0) || not (eqb g.stats_glicko_message_id 0))

  unfoldable pub save_if : Bool → Group → Act GoError
  save_if true g = do writes (upsert_group g); return none
  save_if false g = return none

  -- The third message is up to date.
  unfoldable pub posted_stats : Group → Bool → Result (ℕ × Bool) → Act GoError
  posted_stats g dirty (err e) = return (some e)
  posted_stats g dirty (ok (id, true)) = save_if true (record g { stats_message_id = id })
  posted_stats g dirty (ok (id, false)) = save_if dirty g

  unfoldable pub post_stats : Text → Group → Bool → Act GoError
  post_stats stats g dirty = do
    r ← upsert_message g.group_id g.stats_topic_id g.stats_message_id stats true
    posted_stats g dirty r

  -- The second message is up to date.
  unfoldable pub posted_glicko : Text → Group → Bool → Result (ℕ × Bool) → Act GoError
  posted_glicko stats g dirty (err e) = return (some e)
  posted_glicko stats g dirty (ok (id, true)) =
      post_stats stats (record g { rankings_glicko_message_id = id }) true
  posted_glicko stats g dirty (ok (id, false)) = post_stats stats g dirty

  unfoldable pub post_glicko : Text → Text → Group → Bool → Act GoError
  post_glicko glicko stats g dirty = do
    r ← upsert_message g.group_id g.stats_topic_id g.rankings_glicko_message_id glicko false
    posted_glicko stats g dirty r

  -- The first message is up to date.
  unfoldable pub posted_elo : Text → Text → Group → Bool → Result (ℕ × Bool) → Act GoError
  posted_elo glicko stats g dirty (err e) = return (some e)
  posted_elo glicko stats g dirty (ok (id, true)) =
      post_glicko glicko stats (record g { rankings_elo_message_id = id }) true
  posted_elo glicko stats g dirty (ok (id, false)) = post_glicko glicko stats g dirty

  -- The messages of earlier versions are deleted.
  unfoldable pub drop_orphans : Group → Act (Unit {0})
  drop_orphans g = do
    drop_message g.group_id g.rankings_message_id
    drop_message g.group_id g.stats_elo_message_id
    drop_message g.group_id g.stats_glicko_message_id

  unfoldable pub post_elo : Text → Text → Text → Group → Act GoError
  post_elo elo glicko stats g = do
    r ← upsert_message g.group_id g.stats_topic_id g.rankings_elo_message_id elo false
    posted_elo glicko stats (without_orphans g) (has_orphans g) r

  -- refreshStatsTopic from the three texts on.
  unfoldable pub post_all : Text → Text → Text → Group → Act GoError
  post_all elo glicko stats g = do drop_orphans g; post_elo elo glicko stats g

module _ {F : Type 0} (fl : Floats F) (env : Env) (new_glicko2 : ℕ → Engine F) (default : ℕ) where
  unfoldable pub with_stats : Group → Text → Text → Result Text → Act GoError
  with_stats g elo glicko (err e) = return (some e)
  with_stats g elo glicko (ok stats) = post_all env elo glicko stats g

  unfoldable pub with_glicko_text : Group → Engine F → Text → Result Text → Act GoError
  with_glicko_text g engine elo (err e) = return (some e)
  with_glicko_text g engine elo (ok glicko) = do
    stats ← render_combined_stats fl env g (new_elo fl) engine
    with_stats g elo glicko stats

  unfoldable pub with_elo_text : Group → Engine F → Result Text → Act GoError
  with_elo_text g engine (err e) = return (some e)
  with_elo_text g engine (ok elo) = do
    glicko ← render_rankings fl env g engine (text "Glicko-2 Rankings")
    with_glicko_text g engine elo glicko

  -- refreshStatsTopic with the engine that buildEngines gives.
  unfoldable pub refresh_with : Group → Engine F → Act GoError
  refresh_with g engine = do
    elo ← render_rankings fl env g (new_elo fl) (text "ELO Rankings")
    with_elo_text g engine elo

  -- refreshStatsTopic
  unfoldable pub refresh_stats_topic : Group → Act GoError
  refresh_stats_topic g =
      if not (fully_configured g)
      then return none
      else (do days ← reads (period_days default); refresh_with g (new_glicko2 days))

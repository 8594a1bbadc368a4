-- ===== src/Refine/Groups.antt =====
-- The commands that change a group's row, as steps.
use ttbot_repo_placeholder.Prelude.{
  ℕ, ◌≡◌, ◌∙◌, refl, sym, subst, inr, true, not, none, some, Option, arith, eqb, if_case,
}
use ttbot_repo_placeholder.GoMap.{nat_eq}
use ttbot_repo_placeholder.Text.{Text}
use ttbot_repo_placeholder.Models.{Group}
use ttbot_repo_placeholder.Store.Players.{get_group, upsert_group}
use ttbot_repo_placeholder.Messages.{Message, is_supergroup}
use ttbot_repo_placeholder.Bot.{Env, Bot, Act, GoError, call, writes, is_chat_admin, ◌>>=◌}
use ttbot_repo_placeholder.Handlers.Replies.{call_error, reply}
use ttbot_repo_placeholder.Handlers.Group.{
  relink, link, new_group, stored_campus, handle_bot_register_group, assert_group_admin,
  set_matches_topic, handle_set_matches_topic,
}
use ttbot_repo_placeholder.Ledger.{ledger}
use ttbot_repo_placeholder.Ledger.Steps.{Actor, person, MayConfigure, Steps, stay, one, regrouped}
use ttbot_repo_placeholder.Ledger.Steps.WellFormed.{WellFormed}
use ttbot_repo_placeholder.Refine.Undo.{group_of_chat}
use ttbot_repo_placeholder.Refine.{cause, Reached, Refines, found_case}

module _ (env : Env) where
  pub assert_group_admin-kept :
      (m : Message) (b : Bot) → ledger (assert_group_admin env m b).1 ≡ ledger b
  unfolding assert_group_admin reply call_error call
  assert_group_admin-kept m b = ground arith

module _ (env : Env) (actor : Actor) where
  pub upsert_group-Refines :
      (g : Group)
      → MayConfigure (cause env actor) g.group_id
      → Refines env actor 0 (writes (upsert_group g))
  unfolding writes upsert_group
  upsert_group-Refines g may b w = one _ (regrouped g may)

module _ (env : Env) (m : Message) where
  reply-Refines : (t : Text) → Refines env (person m.from.id) 0 (reply env m t)
  unfolding reply call_error call
  reply-Refines t b w = stay

  -- An admin of the chat may change the chat's group.
  admin_may :
      (gid : ℕ)
      → is_chat_admin env m.chat.id m.from.id ≡ true
      → m.chat.id ≡ gid
      → MayConfigure (cause env (person m.from.id)) gid
  admin_may gid a c = inr (m.from.id, refl, ground (arith, a, c))

  relink-Refines :
      (g : Group) (c : Text × Text)
      → MayConfigure (cause env (person m.from.id)) g.group_id
      → Refines env (person m.from.id) 0 (relink env m g c)
  unfolding relink writes upsert_group reply call_error call
  relink-Refines g c may b w =
      one _ (regrouped (record g { campus_id = c.0; campus_name = c.1 }) may)

  link-Refines :
      (c : Text × Text)
      → is_chat_admin env m.chat.id m.from.id ≡ true
      → Refines env (person m.from.id) 0 (link env m c)
  unfolding link writes upsert_group new_group reply call_error call
  link-Refines c a b w =
      one _ (regrouped (new_group env m.chat.id m.from.id c) (admin_may m.chat.id a refl))

  pub register_group-Refines : Refines env (person m.from.id) 0 (handle_bot_register_group env m)
  unfolding handle_bot_register_group
  register_group-Refines b w =
      if_case (Reached env (person m.from.id) 0 b) (not (is_supergroup m.chat))
        (λ _. reply-Refines _ b w)
        (λ _.
          if_case (Reached env (person m.from.id) 0 b) (not (is_chat_admin env m.chat.id m.from.id))
            (λ _. reply-Refines _ b w)
            (λ refused.
              let a : is_chat_admin env m.chat.id m.from.id ≡ true = ground (arith, refused) in
              found_case (Reached env (person m.from.id) 0 b) (get_group m.chat.id b.store)
                (λ g h.
                  relink-Refines g (stored_campus b.store)
                    (admin_may g.group_id a (group_of_chat env m g b w h)) b w)
                (λ _. link-Refines (stored_campus b.store) a b w)))

  -- The group that assertGroupAdmin gives is the chat's, and the sender is an admin of the chat.
  asserted :
      (b : Bot)
      → WellFormed (ledger b)
      → (g : Group) → (assert_group_admin env m b).0 ≡ some g
      → MayConfigure (cause env (person m.from.id)) g.group_id
  unfolding assert_group_admin
  asserted b w =
      found_case
        (λ (r : Option Group × Bot).
          (g : Group) → r.0 ≡ some g → MayConfigure (cause env (person m.from.id)) g.group_id)
        (get_group m.chat.id b.store)
        (λ h there.
          if_case
            (λ (r : Option Group × Bot).
              (g : Group) → r.0 ≡ some g → MayConfigure (cause env (person m.from.id)) g.group_id)
            (not (is_chat_admin env m.chat.id m.from.id)) (λ _ g e. ground (arith, e))
            (λ refused g e.
              let same : h.group_id ≡ g.group_id = ground (arith, e) in
              admin_may g.group_id (ground (arith, refused))
                (group_of_chat env m h b w there ∙ same)))
        (λ _ g e. ground (arith, e))

  -- What an admin does with their group.
  pub configured-Refines :
      (next : Option Group → Act GoError)
      → ((o : Option Group)
          → ((g : Group) → o ≡ some g → MayConfigure (cause env (person m.from.id)) g.group_id)
          → Refines env (person m.from.id) 0 (next o))
      → Refines env (person m.from.id) 0 (assert_group_admin env m >>= next)
  configured-Refines next h b w =
      let r = assert_group_admin env m b in
      let kept = assert_group_admin-kept env m b in
      subst (λ l. Steps (cause env (person m.from.id)) 0 l (ledger (next r.0 r.1).1)) kept
        (h r.0 (asserted b w) r.1 (subst WellFormed (sym kept) w))

  set_matches-Refines :
      (o : Option Group)
      → ((g : Group) → o ≡ some g → MayConfigure (cause env (person m.from.id)) g.group_id)
      → Refines env (person m.from.id) 0 (set_matches_topic env m o)
  unfolding set_matches_topic writes upsert_group reply call_error call
  set_matches-Refines none may b w = stay
  set_matches-Refines (some g) may b w =
      if_case {R = Act GoError} (λ step. Reached env (person m.from.id) 0 b (step b))
        (eqb m.thread_id 0) (λ _. stay)
        (λ _. one _ (regrouped (record g { matches_topic_id = m.thread_id }) (may g refl)))

  pub set_matches_topic-Refines : Refines env (person m.from.id) 0 (handle_set_matches_topic env m)
  unfolding handle_set_matches_topic
  set_matches_topic-Refines = configured-Refines (set_matches_topic env m) set_matches-Refines

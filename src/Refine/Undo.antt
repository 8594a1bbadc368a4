-- ===== src/Refine/Undo.antt =====
-- /undo, as steps.
use ttbot_repo_placeholder.Prelude.{
  ℕ, ◌≡◌, refl, sym, subst, ap, Bool, true, false, not, ◌&&◌, ◌||◌, ◌⊎◌, inl, inr, arith,
  if◌then◌else◌, Bool-cases, option_case, if_case, eqb,
}
use ttbot_repo_placeholder.GoMap
use ttbot_repo_placeholder.GoMap.{get-put, nat_eq}
use ttbot_repo_placeholder.Text.{Text}
use ttbot_repo_placeholder.Models.{Group, Match, fully_configured}
use ttbot_repo_placeholder.Store.{Store, vote_key}
use ttbot_repo_placeholder.Store.Keyed.{vote}
use ttbot_repo_placeholder.Store.Matches.{Found, found, get_match}
use ttbot_repo_placeholder.Store.Votes.{insert_undo, delete_undo, delete_undos}
use ttbot_repo_placeholder.Store.Players.{get_group}
use ttbot_repo_placeholder.Messages.{Message}
use ttbot_repo_placeholder.Bot.{Env, Bot, is_chat_admin, call}
use ttbot_repo_placeholder.Handlers.Replies.{call_error, reply}
use ttbot_repo_placeholder.Handlers.Undo.{undo_target, toggled, undo_in_group, handle_undo}
use ttbot_repo_placeholder.Ledger.{ledger, ledger_of}
use ttbot_repo_placeholder.Ledger.UndoCleanup.{request_key}
use ttbot_repo_placeholder.Ledger.Undo.{
  with_request, flipped, both_requested, may_undo, is_played, asked, ledger-undo_match,
  has_requested-with_request,
}
use ttbot_repo_placeholder.Ledger.Steps
use ttbot_repo_placeholder.Ledger.Steps.{
  person, Step, Steps, stay, then_step, one, HasAsked, vote_on,
}
use ttbot_repo_placeholder.Ledger.Steps.Tables.{get-Linked}
use ttbot_repo_placeholder.Ledger.Steps.WellFormed.{WellFormed, Step-WellFormed, group_key}
use ttbot_repo_placeholder.Refine.{cause, Reached, Refines, found_case}
use ttbot_repo_placeholder.Refine.Rows.{
  key, Linked-IsKeyed, get_match_row, key_of_row, update_status_row,
}

module _ (env : Env) (m : Message) where
  with_request-asked :
      (gid mid id : ℕ) (s : Store)
      → asked env m gid mid id s ≡ true
      → HasAsked (key gid mid) id (ledger_of (with_request env m gid mid s))
  unfolding insert_undo
  with_request-asked gid mid id s h = ground (
    arith,
    get-put (vote_on (key gid mid) m.from.id) (vote_on (key gid mid) id)
        (record { group_id = gid; match_id = mid; telegram_id = m.from.id; requested_at = env.now })
        s.undos,
  )

  -- Why a command flips the match.
  agreement :
      (gid mid : ℕ) (row : Match) (s : Store)
      → WellFormed (ledger_of s)
      → m.chat.id ≡ gid
      → (is_chat_admin env m.chat.id m.from.id
          || both_requested env m gid mid row (with_request env m gid mid s))
        ≡ true
      → let l = ledger_of (with_request env m gid mid s) in
        (is_chat_admin env gid m.from.id ≡ true)
        ⊎ (HasAsked (key gid mid) row.player1_id l × HasAsked (key gid mid) row.player2_id l)
  agreement gid mid row s w c h =
      let keyed =
        Linked-IsKeyed request_key (λ u. u.telegram_id) (λ u. refl) s.undos s.undos w.requests in
      let one = has_requested-with_request env m gid mid row.player1_id s keyed in
      let two = has_requested-with_request env m gid mid row.player2_id s keyed in
      elim (Bool-cases (is_chat_admin env gid m.from.id)) [
        | inl a ↦ inl a
        | inr n ↦ inr (
          with_request-asked gid mid row.player1_id s (ground (arith, h, n, c, one, two)),
          with_request-asked gid mid row.player2_id s (ground (arith, h, n, c, one, two)),
        )
      ]

  module _ (gid mid : ℕ) (row : Match) (s : Store) (h : get_match gid mid s ≡ found row)
      (w : WellFormed (ledger_of s)) (c : m.chat.id ≡ gid) where
    request_step :
        may_undo env m row ≡ true
        → is_played env m row ≡ true
        → Step
            (cause env (person m.from.id))
            (ledger_of s)
            (ledger_of (with_request env m gid mid s))
    unfolding insert_undo
    request_step d p =
        Steps.requested m.from.id (key gid mid) row (get_match_row gid mid row s h) p
          (refl, ground (arith, d, c))

    with_request-row : get_match gid mid (with_request env m gid mid s) ≡ found row
    unfolding get_match insert_undo
    with_request-row = ground (arith, h)

    flip_step :
        may_undo env m row ≡ true
        → is_played env m row ≡ true
        → (is_chat_admin env m.chat.id m.from.id
            || both_requested env m gid mid row (with_request env m gid mid s))
          ≡ true
        → Step
            (cause env (person m.from.id))
            (ledger_of (with_request env m gid mid s))
            (ledger_of (flipped env m gid row.match_id row (with_request env m gid mid s)))
    unfolding delete_undos
    flip_step d p a =
        let s' = with_request env m gid mid s in
        let w' = Step-WellFormed (cause env (person m.from.id)) (request_step d p) w in
        let same : mid ≡ row.match_id = ap (λ k. k.match_id) (key_of_row gid mid row s h w) in
        let done = update_status_row gid mid row s' with_request-row (toggled row.status) w' in
        let step =
          Steps.flipped m.from.id (key gid mid) row (get_match_row gid mid row s' with_request-row)
            p (refl, ground (arith, d, c)) (agreement gid mid row s w c a) in
        subst
          (λ i.
            Step (cause env (person m.from.id)) (ledger_of s')
              (ledger_of (flipped env m gid i row s')))
          same
          (subst
            (λ l.
              Step (cause env (person m.from.id)) (ledger_of s')
                (Steps.without_requests (key gid mid) l))
            (sym done) step)

    withdraw_steps :
        Steps
          (cause env (person m.from.id))
          1
          (ledger_of s)
          (ledger_of (delete_undo gid mid m.from.id s).1)
    unfolding delete_undo
    withdraw_steps =
        option_case
          (λ (r : Found (Unit {0}) × Store).
            Steps (cause env (person m.from.id)) 1 (ledger_of s) (ledger_of r.1))
          (GoMap.get (vote gid mid m.from.id) s.undos) (λ _. stay)
          (λ u _. one _ (Steps.withdrawn (vote gid mid m.from.id) refl))

    undo_steps :
        (d p t a : Bool)
        → may_undo env m row ≡ d
        → is_played env m row ≡ p
        → (is_chat_admin env m.chat.id m.from.id
            || both_requested env m gid mid row (with_request env m gid mid s))
          ≡ a
        → Steps (cause env (person m.from.id)) 1 (ledger_of s) (
            if d && p
            then (if t
                then ledger_of (delete_undo gid mid m.from.id s).1
                else if a
                then ledger_of (flipped env m gid row.match_id row (with_request env m gid mid s))
                else ledger_of (with_request env m gid mid s))
            else ledger_of s)
    undo_steps true true true a d p e = withdraw_steps
    undo_steps true true false true d p e = then_step (one _ (request_step d p)) (flip_step d p e)
    undo_steps true true false false d p e = one _ (request_step d p)
    undo_steps true false t a d p e = stay
    undo_steps false p t a d e f = stay

  undo_in_group-steps :
      (g : Group) (args : Text) (b : Bot)
      → WellFormed (ledger b)
      → m.chat.id ≡ g.group_id
      → Reached env (person m.from.id) 1 b (undo_in_group env m g args b)
  unfolding undo_in_group reply call_error call
  undo_in_group-steps g args b w c =
      option_case (Reached env (person m.from.id) 1 b) (undo_target m args) (λ _. stay)
        (λ mid _.
          found_case (Reached env (person m.from.id) 1 b) (get_match g.group_id mid b.store)
            (λ row h.
              subst (Steps (cause env (person m.from.id)) 1 (ledger b))
                (sym (ledger-undo_match env m g mid row b))
                (undo_steps g.group_id mid row b.store h w c _ _ _ _ refl refl refl))
            (λ _. stay))

  -- The group of a chat has the chat's id.
  pub group_of_chat :
      (g : Group) (b : Bot)
      → WellFormed (ledger b)
      → get_group m.chat.id b.store ≡ found g
      → m.chat.id ≡ g.group_id
  unfolding get_group
  group_of_chat g b w h =
      get-Linked group_key m.chat.id g b.store.groups b.store.groups w.groups (ground (arith, h))

  pub undo-Refines : (args : Text) → Refines env (person m.from.id) 1 (handle_undo env m args)
  unfolding handle_undo reply call_error call
  undo-Refines args b w =
      found_case (Reached env (person m.from.id) 1 b) (get_group m.chat.id b.store)
        (λ g h.
          if_case (Reached env (person m.from.id) 1 b) (not (fully_configured g)) (λ _. stay)
            (λ _.
              if_case (Reached env (person m.from.id) 1 b)
                (not (eqb m.thread_id g.matches_topic_id)) (λ _. stay)
                (λ _. undo_in_group-steps g args b w (group_of_chat g b w h))))
        (λ _. stay)

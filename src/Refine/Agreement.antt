-- ===== src/Refine/Agreement.antt =====
-- Two taps on Confirm approve a match (pkg/handlers/match.go).
use ttbot_repo_placeholder.Prelude.{
  ℕ, ◌≡◌, refl, ◌∙◌, ap, ◌<◌, ◌^◌, true, ◌||◌, ◌&&◌, arith, eqb, Bool-cases, inl, inr,
}
use ttbot_repo_placeholder.Models.{Match, MatchStatus, is_status}
use ttbot_repo_placeholder.Store.{Store, match_key, vote_key, match_key_eqb_iff, vote_key_eqb_iff}
use ttbot_repo_placeholder.Store.Keyed.{vote}
use ttbot_repo_placeholder.Store.Matches.{found, get_match}
use ttbot_repo_placeholder.Messages.{CallbackQuery}
use ttbot_repo_placeholder.Bot.{Env, Bot, is_chat_admin}
use ttbot_repo_placeholder.Handlers.Register.{match_payload}
use ttbot_repo_placeholder.Handlers.Confirm.{may_decide, handle_confirm_tap}
use ttbot_repo_placeholder.Handlers.Confirm.Payload.{parse_group_match_payload-match_payload}
use ttbot_repo_placeholder.Ledger.{ledger, ledger_of}
use ttbot_repo_placeholder.Ledger.Confirm.{
  TapEffect, KeyedConfirmations, voted, confirm-TapEffect, ledger-handle_confirm_tap,
  ledger-confirm_match,
}
use ttbot_repo_placeholder.Ledger.Steps.{person}
use ttbot_repo_placeholder.Ledger.Steps.WellFormed.{WellFormed, Steps-WellFormed, confirmation_key}
use ttbot_repo_placeholder.Refine.{cause}
use ttbot_repo_placeholder.Refine.Rows.{key, Linked-IsKeyed}
use ttbot_repo_placeholder.Refine.Confirm.{confirm_tap-Refines}

module _ (env : Env) (q : CallbackQuery) where
  tables-KeyedConfirmations : (s : Store) → WellFormed (ledger_of s) → KeyedConfirmations env q s
  tables-KeyedConfirmations s w =
      Linked-IsKeyed confirmation_key (λ c. c.telegram_id) (λ c. refl) s.confirmations
        s.confirmations w.votes

  player_may_decide :
      (gid : ℕ) (m : Match) (user : ℕ)
      → (eqb user m.player1_id || eqb user m.player2_id) ≡ true
      → may_decide env gid user m ≡ true
  unfolding may_decide
  player_may_decide gid m user h = rw (h) refl

  -- A tap on a match that is approved already changes nothing.
  late_tap :
      (gid mid : ℕ) (m : Match) (b : Bot)
      → gid < 2 ^ 64
      → mid < 2 ^ 64
      → get_match gid mid b.store ≡ found m
      → m.status ≡ MatchStatus.approved
      → ledger (handle_confirm_tap env q (match_payload gid mid) b).1 ≡ ledger b
  unfolding is_status
  late_tap gid mid m b hg hm h a =
      ledger-handle_confirm_tap env q (match_payload gid mid) gid mid m b
        (parse_group_match_payload-match_payload gid mid hg hm) h
      ∙ ledger-confirm_match env q (match_payload gid mid) gid mid m b
      ∙ ground (arith, a)

  -- The row after a player's tap.
  tapped_row :
      (gid mid : ℕ) (m : Match) (b : Bot)
      → gid < 2 ^ 64
      → mid < 2 ^ 64
      → get_match gid mid b.store ≡ found m
      → m.status ≡ MatchStatus.pending
      → (eqb q.from.id m.player1_id || eqb q.from.id m.player2_id) ≡ true
      → WellFormed (ledger b)
      → TapEffect env q gid mid m b.store
          (ledger (handle_confirm_tap env q (match_payload gid mid) b).1)
  tapped_row gid mid m b hg hm h p player w =
      confirm-TapEffect env q gid mid m b hg hm h p (player_may_decide gid m q.from.id player)
        (tables-KeyedConfirmations b.store w)

module _ (env1 env2 : Env) (q1 q2 : CallbackQuery) where
  -- Where the tables are in order, a tap on Confirm by the first player of a pending match and then one
  -- by its second player leave it approved, with the players and scores that it had, whatever the chat
  -- platform answers meanwhile.
  pub both_taps_approve :
      (gid mid : ℕ) (m : Match) (b : Bot)
      → gid < 2 ^ 64
      → mid < 2 ^ 64
      → get_match gid mid b.store ≡ found m
      → m.status ≡ MatchStatus.pending
      → q1.from.id ≡ m.player1_id
      → q2.from.id ≡ m.player2_id
      → WellFormed (ledger b)
      → let b1 = (handle_confirm_tap env1 q1 (match_payload gid mid) b).1 in
        let b2 = (handle_confirm_tap env2 q2 (match_payload gid mid) b1).1 in
        get_match gid mid b2.store ≡ found (record m { status = MatchStatus.approved })
  unfolding get_match
  both_taps_approve gid mid m b hg hm h p one two w =
      let b1 = (handle_confirm_tap env1 q1 (match_payload gid mid) b).1 in
      let t1 = tapped_row env1 q1 gid mid m b hg hm h p (ground (arith, one)) w in
      let w1 =
        Steps-WellFormed (cause env1 (person q1.from.id))
          (confirm_tap-Refines env1 q1 (match_payload gid mid) b w) w in
      let r1 = t1.rows (key gid mid) in
      elim (Bool-cases (
        is_chat_admin env1 gid q1.from.id
        || (voted env1 q1 gid mid m.player1_id b.store
            && voted env1 q1 gid mid m.player2_id b.store))) [
              | inl done ↦
                  let there : get_match gid mid b1.store
                      ≡ found (record m { status = MatchStatus.approved }) =
                    ground (arith, r1, match_key_eqb_iff (key gid mid) (key gid mid), done) in
                  let same =
                    late_tap env2 q2 gid mid (record m { status = MatchStatus.approved }) b1 hg hm
                      there refl in
                  ground (arith, there, ap (λ l. l.matches) same)
              | inr waits ↦
                  let there : get_match gid mid b1.store ≡ found m =
                    ground (arith, r1, match_key_eqb_iff (key gid mid) (key gid mid), waits) in
                  let t2 = tapped_row env2 q2 gid mid m b1 hg hm there p (ground (arith, two)) w1 in
                  ground (
                    arith,
                    t2.rows (key gid mid),
                    match_key_eqb_iff (key gid mid) (key gid mid),
                    t1.votes (vote gid mid m.player1_id),
                    vote_key_eqb_iff (vote gid mid q1.from.id) (vote gid mid m.player1_id),
                    one,
                    two,
                  )
            ]

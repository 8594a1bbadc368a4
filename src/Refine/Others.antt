-- ===== src/Refine/Others.antt =====
-- The handlers that leave the ledger alone: accounts, participants, usernames and help.
use ttbot_repo_placeholder.Prelude.{
  ℕ, suc, ◌≡◌, refl, ◌∙◌, none, some, Option, List, [], ◌∷◌, arith, eqb, option_case, if_case,
}
use ttbot_repo_placeholder.Text.{Text}
use ttbot_repo_placeholder.Models.{Group, Participant}
use ttbot_repo_placeholder.Store.{S21Account}
use ttbot_repo_placeholder.Store.Players.{upsert_participant}
use ttbot_repo_placeholder.Store.Accounts.{upsert_account, delete_account}
use ttbot_repo_placeholder.Messages.{ChatUser, Message, ChatMemberUpdate, CallbackQuery}
use ttbot_repo_placeholder.Bot.{Env, Bot, Act, GoError, call, writes, reads}
use ttbot_repo_placeholder.Handlers.Replies.{call_error, call_ignored, reply, answer}
use ttbot_repo_placeholder.Handlers.Accounts.{
  Logins, Decision, StoreAnswer, prompted, prompt, handle_login, handle_logout, handle_logout_reply,
  handle_whoami, login_answered, log_in, use_credentials, handle_login_reply,
}
use ttbot_repo_placeholder.Handlers.Backfill.{admin_groups_for, add_forwarded, handle_forwarded_add}
use ttbot_repo_placeholder.Handlers.Usernames.{
  renamed, refresh_each, refresh_group_usernames, refresh_groups, refresh_all_usernames,
  refresh_usernames, handle_refresh_usernames,
}
use ttbot_repo_placeholder.Handlers.Callbacks.{
  add_participant, add_to_group, handle_add_participant_tap,
}
use ttbot_repo_placeholder.Handlers.Group.{
  greet, dispatch_my_chat_member, record_member, member_changed, dispatch_chat_member,
}
use ttbot_repo_placeholder.Handlers.Cron.{
  persist, warn, apply_decision, probe_password, probe_one, probe_each, probe_all_accounts,
}
use ttbot_repo_placeholder.Ledger.{ledger}
use ttbot_repo_placeholder.Refine.Groups.{assert_group_admin-kept}

module _ (env : Env) where
  pub login-kept :
      (m : Message) (args : Text) (b : Bot) → ledger (handle_login env m args b).1 ≡ ledger b
  unfolding handle_login prompt prompted reply call_error call
  login-kept m args b = ground arith

  pub logout-kept : (m : Message) (b : Bot) → ledger (handle_logout env m b).1 ≡ ledger b
  unfolding handle_logout prompt prompted reply call_error call
  logout-kept m b = ground arith

  pub logout_reply-kept :
      (m : Message) (b : Bot) → ledger (handle_logout_reply env m b).1 ≡ ledger b
  unfolding handle_logout_reply writes delete_account reply call_error call
  logout_reply-kept m b = ground arith

  pub whoami-kept :
      (logins : Logins) (m : Message) (b : Bot) → ledger (handle_whoami env logins m b).1 ≡ ledger b
  unfolding handle_whoami reply call_error call
  whoami-kept logins m b = ground arith

  login_answered-kept :
      (logins : Logins) (m : Message) (r : StoreAnswer) (b : Bot)
      → ledger (login_answered env logins m r b).1 ≡ ledger b
  unfolding login_answered reply call_error call
  login_answered-kept logins m (StoreAnswer.stored a) b = refl
  login_answered-kept logins m StoreAnswer.rejected b = refl
  login_answered-kept logins m (StoreAnswer.unavailable e) b = refl

  use_credentials-kept :
      (logins : Logins) (m : Message) (o : Option (Text × Text)) (b : Bot)
      → ledger (use_credentials env logins m o b).1 ≡ ledger b
  unfolding use_credentials log_in reply call_error call
  use_credentials-kept logins m none b = refl
  use_credentials-kept logins m (some (l, p)) b = login_answered-kept logins m _ _

  pub login_reply-kept :
      (logins : Logins) (m : Message) (b : Bot)
      → ledger (handle_login_reply env logins m b).1 ≡ ledger b
  unfolding handle_login_reply call_ignored call
  login_reply-kept logins m b = use_credentials-kept logins m _ b

  add_forwarded-kept :
      (m : Message) (u : ChatUser) (gs : List Group) (b : Bot)
      → ledger (add_forwarded env m u gs b).1 ≡ ledger b
  unfolding add_forwarded writes upsert_participant reply call_error call
  add_forwarded-kept m u [] b = refl
  add_forwarded-kept m u (g ∷ []) b = refl
  add_forwarded-kept m u (g ∷ h ∷ gs) b = refl

  pub forwarded_add-kept :
      (m : Message) (u : ChatUser) (b : Bot) → ledger (handle_forwarded_add env m u b).1 ≡ ledger b
  unfolding handle_forwarded_add admin_groups_for reads reply call_error call
  forwarded_add-kept m u b =
      if_case {R = Act GoError} (λ step. ledger (step b).1 ≡ ledger b) u.is_bot (λ _. refl)
        (λ _.
          if_case {R = Act GoError} (λ step. ledger (step b).1 ≡ ledger b) (eqb u.id m.from.id)
            (λ _. refl) (λ _. add_forwarded-kept m u _ b))

  refresh_each-kept :
      (gid : ℕ) (ps : List Participant) (n : ℕ) (b : Bot)
      → ledger (refresh_each env gid ps n b).1 ≡ ledger b
  unfolding refresh_each writes upsert_participant
  refresh_each-kept gid [] n b = refl
  refresh_each-kept gid (p ∷ ps) n b =
      option_case {R = Act ℕ} (λ step. ledger (step b).1 ≡ ledger b)
        (renamed env p (env.member_username gid p.telegram_id)) (λ _. refresh_each-kept gid ps n b)
        (λ p' _. refresh_each-kept gid ps (suc n) _)

  refresh_group-kept : (g : Group) (b : Bot) → ledger (refresh_group_usernames env g b).1 ≡ ledger b
  unfolding refresh_group_usernames reads
  refresh_group-kept g b = refresh_each-kept g.group_id _ 0 b

  refresh_groups-kept : (gs : List Group) (b : Bot) → ledger (refresh_groups env gs b).1 ≡ ledger b
  unfolding refresh_groups
  refresh_groups-kept [] b = refl
  refresh_groups-kept (g ∷ gs) b = refresh_groups-kept gs _ ∙ refresh_group-kept g b

  pub refresh_all-kept : (b : Bot) → ledger (refresh_all_usernames env b).1 ≡ ledger b
  unfolding refresh_all_usernames reads
  refresh_all-kept b = refresh_groups-kept _ b

  refresh_usernames-kept :
      (m : Message) (g : Option Group) (b : Bot) → ledger (refresh_usernames env m g b).1 ≡ ledger b
  unfolding refresh_usernames reply call_error call
  refresh_usernames-kept m none b = refl
  refresh_usernames-kept m (some g) b = refresh_group-kept g b

  pub handle_refresh-kept :
      (m : Message) (b : Bot) → ledger (handle_refresh_usernames env m b).1 ≡ ledger b
  unfolding handle_refresh_usernames
  handle_refresh-kept m b = refresh_usernames-kept m _ _ ∙ assert_group_admin-kept env m b

  pub my_chat_member-kept :
      (ev : ChatMemberUpdate) (b : Bot) → ledger (dispatch_my_chat_member env ev b).1 ≡ ledger b
  unfolding dispatch_my_chat_member greet call_ignored call_error call
  my_chat_member-kept ev b = ground arith

  pub chat_member-kept :
      (ev : ChatMemberUpdate) (b : Bot) → ledger (dispatch_chat_member env ev b).1 ≡ ledger b
  unfolding dispatch_chat_member member_changed record_member writes upsert_participant
  chat_member-kept ev b = ground arith

  pub add_participant_tap-kept :
      (q : CallbackQuery) (payload : Text) (b : Bot)
      → ledger (handle_add_participant_tap env q payload b).1 ≡ ledger b
  unfolding handle_add_participant_tap add_to_group add_participant writes upsert_participant
      call_ignored answer call_error call
  add_participant_tap-kept q payload b = ground arith

  module _ (logins : Logins) where
    apply_decision-kept :
        (a : S21Account) (d : Decision) (b : Bot)
        → ledger (apply_decision env logins a d b).1 ≡ ledger b
    unfolding apply_decision persist warn writes delete_account upsert_account call_ignored call
    apply_decision-kept a d b = ground arith

    probe_password-kept :
        (a : S21Account) (o : Option Text) (b : Bot)
        → ledger (probe_password env logins a o b).1 ≡ ledger b
    unfolding probe_password call_ignored call
    probe_password-kept a none b = refl
    probe_password-kept a (some p) b = apply_decision-kept a _ b

    probe_each-kept :
        (rows : List S21Account) (b : Bot) → ledger (probe_each env logins rows b).1 ≡ ledger b
    unfolding probe_each probe_one
    probe_each-kept [] b = refl
    probe_each-kept (a ∷ rows) b = probe_each-kept rows _ ∙ probe_password-kept a _ b

    pub probe_all-kept : (b : Bot) → ledger (probe_all_accounts env logins b).1 ≡ ledger b
    unfolding probe_all_accounts reads
    probe_all-kept b = probe_each-kept _ b

-- ===== src/Refine/Updates.antt =====
-- Dispatch of pkg/handlers/handlers.go and PeriodicJob of pkg/handlers/periodic.go, as steps.
use ttbot_repo_placeholder.Prelude.{
  ℕ, ◌≡◌, sym, subst, ◌||◌, ◌&&◌, not, true, false, Bool, none, some, Option, arith, option_case,
  if_case,
}
use ttbot_repo_placeholder.Text.{Text, text, strip_prefix}
use ttbot_repo_placeholder.Store.Players.{upsert_participant}
use ttbot_repo_placeholder.Messages.{Message, Update, CallbackQuery, is_private}
use ttbot_repo_placeholder.Names.{is_empty}
use ttbot_repo_placeholder.Bot.{Env, Bot, Act, GoError, call, writes}
use ttbot_repo_placeholder.Ratings.{Floats, Engine}
use ttbot_repo_placeholder.Handlers.Replies.{call_error, call_ignored, reply, answer}
use ttbot_repo_placeholder.Handlers.Accounts.{
  Logins, is_login_reply, is_logout_reply, handle_login, handle_login_reply, handle_logout,
  handle_logout_reply, handle_whoami,
}
use ttbot_repo_placeholder.Handlers.Backfill.{handle_forwarded_add}
use ttbot_repo_placeholder.Handlers.Callbacks.{
  dispatch_rest, dispatch_data, dispatch_callback, handle_add_participant_tap,
}
use ttbot_repo_placeholder.Handlers.Usernames.{handle_refresh_usernames}
use ttbot_repo_placeholder.Handlers.Start.{handle_start}
use ttbot_repo_placeholder.Handlers.Group.{
  handle_bot_register_group, handle_set_matches_topic, dispatch_my_chat_member,
  dispatch_chat_member,
}
use ttbot_repo_placeholder.Handlers.Group.StatsCommand.{handle_set_stats_topic}
use ttbot_repo_placeholder.Handlers.Dispatch.{
  Command, command_of, split_command, delete_if, delete_stats_topic_litter,
  upsert_sender_participant, handle_ping, in_private, run_command, dispatch_command, after_litter,
  dispatch_plain, dispatch_private, dispatch_message, from_sender, dispatch,
}
use ttbot_repo_placeholder.Handlers.Cron.{probe_all_accounts, clean_up, periodic_job}
use ttbot_repo_placeholder.Handlers.Periodic.{clean_expired_matches}
use ttbot_repo_placeholder.Ledger.{ledger}
use ttbot_repo_placeholder.Ledger.Steps.{Actor, person, timer, nobody, Steps, stay, join}
use ttbot_repo_placeholder.Ledger.Steps.WellFormed.{WellFormed, Steps-WellFormed}
use ttbot_repo_placeholder.Refine.{
  cause, upto-Refines, Reached, Refines, keeps-Refines, then-Refines, after-Refines,
}
use ttbot_repo_placeholder.Refine.Confirm.{confirm_tap-Refines, cancel_tap-Refines}
use ttbot_repo_placeholder.Refine.Undo.{undo-Refines}
use ttbot_repo_placeholder.Refine.Register.{match-Refines}
use ttbot_repo_placeholder.Refine.Taps.{interactive-Refines}
use ttbot_repo_placeholder.Refine.Expiry.{clean_expired_matches-Steps, clean_expired_undo-Steps}
use ttbot_repo_placeholder.Refine.Groups.{register_group-Refines, set_matches_topic-Refines}
use ttbot_repo_placeholder.Refine.StatsTopic.{set_stats_topic-Refines}
use ttbot_repo_placeholder.Refine.Others.{
  login-kept, logout-kept, logout_reply-kept, whoami-kept, login_reply-kept, forwarded_add-kept,
  handle_refresh-kept, refresh_all-kept, my_chat_member-kept, chat_member-kept,
  add_participant_tap-kept, probe_all-kept,
}

-- The sender of a message or a tap, if it has one.
abbrev pub by_message : Option Message → Actor
by_message (some m) = person m.from.id
by_message none = nobody

abbrev pub by_tap : Option CallbackQuery → Actor
by_tap (some q) = person q.from.id
by_tap none = nobody

-- Who makes the bot act by the update. Updates on members do not.
abbrev pub sender_of : Update → Actor
sender_of u = elim u.message [
  | some m ↦ by_message m
  | none ↦ elim u.callback_query [ some q ↦ by_tap q | none ↦ nobody ]
]

module _ (env : Env) where
  rest-Refines :
      (q : CallbackQuery) (t : Text) → Refines env (person q.from.id) 1 (dispatch_rest env q t)
  unfolding dispatch_rest answer call_error call
  rest-Refines q t =
      option_case {R = Act GoError} (Refines env (person q.from.id) 1)
        (strip_prefix (text "m:x:") t)
        (λ _.
          option_case {R = Act GoError} (Refines env (person q.from.id) 1)
            (strip_prefix (text "p:a:") t) (λ _ b w. stay)
            (λ p _.
              keeps-Refines env (person q.from.id) (handle_add_participant_tap env q p)
                (add_participant_tap-kept env q p)))
        (λ p _. cancel_tap-Refines env q p)

  pub callback-Refines :
      (q : CallbackQuery) → Refines env (person q.from.id) 1 (dispatch_callback env q)
  unfolding dispatch_callback dispatch_data
  callback-Refines q =
      option_case {R = Act GoError} (Refines env (person q.from.id) 1)
        (strip_prefix (text "m:i:") q.payload)
        (λ _.
          option_case {R = Act GoError} (Refines env (person q.from.id) 1)
            (strip_prefix (text "m:c:") q.payload) (λ _. rest-Refines q q.payload)
            (λ p _. confirm_tap-Refines env q p))
        (λ p _. interactive-Refines env q p)

  litter-kept : (m : Message) (b : Bot) → ledger (delete_stats_topic_litter env m b).1 ≡ ledger b
  unfolding delete_stats_topic_litter delete_if call_ignored call
  litter-kept m b = ground arith

  upsert_sender-kept :
      (m : Message) (b : Bot) → ledger (upsert_sender_participant env m b).1 ≡ ledger b
  unfolding upsert_sender_participant writes upsert_participant
  upsert_sender-kept m b = ground arith

module _ {F : Type 0} (fl : Floats F) (env : Env) (logins : Logins) (new_glicko2 : ℕ → Engine F)
    (default : ℕ) where
  in_private-Refines :
      (m : Message) (handler : Act GoError)
      → Refines env (person m.from.id) 1 handler
      → Refines env (person m.from.id) 1 (in_private fl env logins new_glicko2 default m handler)
  unfolding in_private
  in_private-Refines m handler h =
      if_case {R = Act GoError} (Refines env (person m.from.id) 1) (is_private m.chat) (λ _. h)
        (λ _ b w. stay)

  run_command-Refines :
      (m : Message) (args : Text) (c : Option Command)
      → Refines env (person m.from.id) 1 (run_command fl env logins new_glicko2 default m args c)
  unfolding run_command handle_ping handle_start reply call_error call
  run_command-Refines m args none b w = stay
  run_command-Refines m args (some Command.start) b w =
      in_private-Refines m (handle_start env m) (λ b w. stay) b w
  run_command-Refines m args (some Command.login) b w =
      in_private-Refines m (handle_login env m args)
        (keeps-Refines env (person m.from.id) (handle_login env m args) (login-kept env m args)) b w
  run_command-Refines m args (some Command.logout) b w =
      in_private-Refines m (handle_logout env m)
        (keeps-Refines env (person m.from.id) (handle_logout env m) (logout-kept env m)) b w
  run_command-Refines m args (some Command.whoami) b w =
      in_private-Refines m (handle_whoami env logins m)
        (keeps-Refines env (person m.from.id) (handle_whoami env logins m)
          (whoami-kept env logins m))
        b w
  run_command-Refines m args (some Command.register_group) b w =
      upto-Refines env (person m.from.id) (handle_bot_register_group env m)
        (register_group-Refines env m) b w
  run_command-Refines m args (some Command.set_matches) b w =
      upto-Refines env (person m.from.id) (handle_set_matches_topic env m)
        (set_matches_topic-Refines env m) b w
  run_command-Refines m args (some Command.set_stats) b w =
      upto-Refines env (person m.from.id) (handle_set_stats_topic fl env new_glicko2 default m)
        (set_stats_topic-Refines fl env new_glicko2 default m) b w
  run_command-Refines m args (some Command.refresh) b w =
      keeps-Refines env (person m.from.id) (handle_refresh_usernames env m)
        (handle_refresh-kept env m) b w
  run_command-Refines m args (some Command.match) b w = match-Refines env m args b w
  run_command-Refines m args (some Command.undo) b w = undo-Refines env m args b w
  run_command-Refines m args (some Command.ping) b w = stay

  command-Refines :
      (m : Message)
      → Refines env (person m.from.id) 1 (dispatch_command fl env logins new_glicko2 default m)
  unfolding dispatch_command
  command-Refines m =
      if_case {R = Act GoError} (Refines env (person m.from.id) 1)
        (is_empty m.text || is_empty (split_command m.text).0) (λ _ b w. stay)
        (λ _.
          let rest =
            run_command fl env logins new_glicko2 default m (split_command m.text).1
              (command_of (split_command m.text).0) in
          after-Refines env (person m.from.id) {c = 0} (upsert_sender_participant env m) rest
            (keeps-Refines env (person m.from.id) (upsert_sender_participant env m)
              (upsert_sender-kept env m))
            (run_command-Refines m _ _))

  after_litter-Refines :
      (m : Message) (litter : Bool)
      → Refines env (person m.from.id) 1 (after_litter fl env logins new_glicko2 default m litter)
  unfolding after_litter
  after_litter-Refines m true b w = stay
  after_litter-Refines m false b w =
      if_case {R = Act GoError} (λ step. Reached env (person m.from.id) 1 b (step b))
        (is_private m.chat && is_login_reply m)
        (λ _.
          keeps-Refines env (person m.from.id) (handle_login_reply env logins m)
            (login_reply-kept env logins m) b w)
        (λ _.
          if_case {R = Act GoError} (λ step. Reached env (person m.from.id) 1 b (step b))
            (is_private m.chat && is_logout_reply m)
            (λ _.
              keeps-Refines env (person m.from.id) (handle_logout_reply env m)
                (logout_reply-kept env m) b w)
            (λ _. command-Refines m b w))

  plain-Refines :
      (m : Message)
      → Refines env (person m.from.id) 1 (dispatch_plain fl env logins new_glicko2 default m)
  unfolding dispatch_plain
  plain-Refines m =
      then-Refines env (person m.from.id) {c = 0} (delete_stats_topic_litter env m)
        (after_litter fl env logins new_glicko2 default m)
        (keeps-Refines env (person m.from.id) (delete_stats_topic_litter env m) (litter-kept env m))
        (after_litter-Refines m)

  private-Refines :
      (m : Message)
      → Refines env (person m.from.id) 1 (dispatch_private fl env logins new_glicko2 default m)
  unfolding dispatch_private reply call_error call
  private-Refines m =
      option_case {R = Act GoError} (Refines env (person m.from.id) 1) m.forward_from
        (λ _.
          if_case {R = Act GoError} (Refines env (person m.from.id) 1)
            (not (is_empty m.forward_sender_name)) (λ _ b w. stay) (λ _. plain-Refines m))
        (λ u _.
          keeps-Refines env (person m.from.id) (handle_forwarded_add env m u)
            (forwarded_add-kept env m u))

  message-Refines :
      (m : Message)
      → Refines env (person m.from.id) 1 (dispatch_message fl env logins new_glicko2 default m)
  unfolding dispatch_message
  message-Refines m =
      if_case {R = Act GoError} (Refines env (person m.from.id) 1) (is_private m.chat)
        (λ _. private-Refines m) (λ _. plain-Refines m)

  from_sender-Refines {ℓ} :
      {A : Type ℓ} (handler : A → Act GoError) (by : Option A → Actor) (o : Option A)
      → ((a : A) → Refines env (by (some a)) 1 (handler a))
      → Refines env (by o) 1 (from_sender fl env logins new_glicko2 default handler o)
  unfolding from_sender
  from_sender-Refines handler by none h b w = stay
  from_sender-Refines handler by (some a) h b w = h a b w

  dispatch-Refines :
      (u : Update) → Refines env (sender_of u) 1 (dispatch fl env logins new_glicko2 default u)
  unfolding dispatch
  dispatch-Refines u =
      option_case {R = Act GoError} (Refines env (sender_of u) 1) u.message
        (λ silent.
          option_case {R = Act GoError} (Refines env (sender_of u) 1) u.callback_query
            (λ _.
              option_case {R = Act GoError} (Refines env (sender_of u) 1) u.my_chat_member
                (λ _.
                  from_sender-Refines (dispatch_chat_member env) (λ _. sender_of u) u.chat_member
                    (λ ev.
                      keeps-Refines env (sender_of u) (dispatch_chat_member env ev)
                        (chat_member-kept env ev)))
                (λ ev _.
                  keeps-Refines env (sender_of u) (dispatch_my_chat_member env ev)
                    (my_chat_member-kept env ev)))
            (λ q there.
              let by_it : by_tap q ≡ sender_of u = ground (arith, silent, there) in
              subst
                (λ a.
                  Refines env a 1
                    (from_sender fl env logins new_glicko2 default (dispatch_callback env) q))
                by_it
                (from_sender-Refines (dispatch_callback env) by_tap q (callback-Refines env))))
        (λ m there.
          let by_it : by_message m ≡ sender_of u = ground (arith, there) in
          subst
            (λ a. Refines env a 1 (
              from_sender fl env logins new_glicko2 default
                (dispatch_message fl env logins new_glicko2 default) m))
            by_it
            (from_sender-Refines (dispatch_message fl env logins new_glicko2 default) by_message m
              message-Refines))

  pub dispatch-Steps :
      (u : Update) (b : Bot)
      → WellFormed (ledger b)
      → Steps
          (cause env (sender_of u))
          1
          (ledger b)
          (ledger (dispatch fl env logins new_glicko2 default u b).1)
  dispatch-Steps u b w = dispatch-Refines u b w

module _ (env : Env) (logins : Logins) where
  clean_up-Refines : Refines env timer 0 (clean_up env logins)
  unfolding clean_up
  clean_up-Refines b w = join (cause env timer) (clean_expired_matches-Steps env b w) (
      clean_expired_undo-Steps env (clean_expired_matches env b)
        (Steps-WellFormed (cause env timer) (clean_expired_matches-Steps env b w) w))

  -- A run of the periodic job takes a ledger whose tables are in order only through the steps that the
  -- timer may take at that time, and registers no match: it removes only pending matches whose age by the
  -- wall clock exceeds their group's timeout, and undo requests older than a day by Config.Now.
  pub periodic_job-Steps :
      (b : Bot)
      → WellFormed (ledger b)
      → Steps (cause env timer) 0 (ledger b) (ledger (periodic_job env logins b).1)
  unfolding periodic_job
  periodic_job-Steps b w =
      let probed =
        keeps-Refines env timer (probe_all_accounts env logins) (probe_all-kept env logins) in
      let cleaned =
        after-Refines env timer {c = 0} (probe_all_accounts env logins) (clean_up env logins) probed
          clean_up-Refines b w in
      subst (Steps (cause env timer) 0 (ledger b)) (sym (refresh_all-kept env _)) cleaned

-- ===== src/Handlers/Replies.antt =====
-- `reply` of pkg/handlers/handlers.go and the other sends that the handlers share.
use ttbot_repo_placeholder.Text.{Text, text}
use ttbot_repo_placeholder.Messages.{Message, CallbackQuery}
use ttbot_repo_placeholder.Bot.{
  Env, Act, Call, GoError, error_of, call, send_message, answer_callback, send_reaction, ◌>>=◌,
  return,
}

-- A call whose error the handler returns.
unfoldable pub call_error : Env → Call → Act GoError
call_error env c = do r ← call env c; return (error_of r)

-- A call whose error is dropped.
unfoldable pub call_ignored : Env → Call → Act (Unit {0})
call_ignored env c = do r ← call env c; return tt

-- reply
unfoldable pub reply : Env → Message → Text → Act GoError
reply env m body = call_error env (send_message m.chat.id m.thread_id body)

-- AnswerCallback as the last step of a tap.
unfoldable pub answer : Env → CallbackQuery → Text → Act GoError
answer env q toast = call_error env (answer_callback q.id toast)

-- SendReaction with a thumb up, its error dropped.
unfoldable pub thumb_up : Env → Message → Act (Unit {0})
thumb_up env m = call_ignored env (send_reaction m.chat.id m.message_id (text "👍"))

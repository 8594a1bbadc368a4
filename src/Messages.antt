-- ===== src/Messages.antt =====
-- The inbound updates of pkg/messenger/messenger.go, as far as the handlers read them.
use ttbot_repo_placeholder.Prelude.{ℕ, Bool, ◌&&◌, Option}
use ttbot_repo_placeholder.Text.{Text, text, text_eqb}

-- messenger.User
pub record ChatUser : Type 0 where
  pub id : ℕ
  pub is_bot : Bool
  pub username : Text

pub record Chat : Type 0 where
  pub id : ℕ
  pub kind : Text
  pub is_forum : Bool

-- The message that a message replies to.
pub record Replied : Type 0 where
  pub from : Option ChatUser
  pub text : Text

-- messenger.Message from a sender; `dispatchMessage` drops those without one.
pub record Message : Type 0 where
  pub message_id : ℕ
  pub chat : Chat
  pub from : ChatUser
  pub text : Text
  pub thread_id : ℕ
  pub reply_to : Option Replied
  pub forward_from : Option ChatUser
  pub forward_sender_name : Text

-- The message under the buttons of a callback.
pub record Prompt : Type 0 where
  pub chat_id : ℕ
  pub message_id : ℕ
  pub text : Text

-- messenger.CallbackQuery from a sender; `dispatchCallback` drops those without one.
pub record CallbackQuery : Type 0 where
  pub id : Text
  pub from : ChatUser
  pub prompt : Prompt
  pub payload : Text

-- messenger.ChatMember, the user where there is one.
pub record ChatMember : Type 0 where
  pub user : Option ChatUser
  pub status : Text

pub record ChatMemberUpdate : Type 0 where
  pub chat : Chat
  pub new_chat_member : Option ChatMember

-- messenger.Update. A message or a tap that is there may lack its sender: that is `some none`.
pub record Update : Type 0 where
  pub message : Option (Option Message)
  pub callback_query : Option (Option CallbackQuery)
  pub my_chat_member : Option ChatMemberUpdate
  pub chat_member : Option ChatMemberUpdate

unfoldable pub is_private : Chat → Bool
is_private c = text_eqb c.kind (text "private")

-- isSupergroup
unfoldable pub is_supergroup : Chat → Bool
is_supergroup c = text_eqb c.kind (text "supergroup") && c.is_forum

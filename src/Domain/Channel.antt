-- ===== src/Domain/Channel.antt =====
-- internal/domain/channel.go: where alerts are delivered.
use pingcast.Prelude.{ℕ, Bool, true, false, Text}

-- `ChannelType` is a string: `other` is any text but the three known ones.
pub data ChannelType : Type 0 where
  telegram email webhook : ChannelType
  other : Text → ChannelType

unfoldable pub valid : ChannelType → Bool
valid (other t) = false
valid _ = true

pub record NotificationChannel : Type 0 where
  pub id : ℕ
  pub user_id : ℕ
  pub name : Text
  pub type : ChannelType
  pub config : Text
  pub is_enabled : Bool
  pub created_at : ℕ

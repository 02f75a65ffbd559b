-- ===== src/Store/Channels/Reads.antt =====
-- Reading a channel writes nothing, and finds a row that is not deleted.
use pingcast.Prelude.{ℕ, some, find, ◌≡◌, arith, Option-cases, inl, inr}
use pingcast.Error.{ok}
use pingcast.Domain.Channel.{NotificationChannel}
use pingcast.Store.World.{World, Env, ChannelRow}
use pingcast.Store.Exec.Reads.{Reads}
use pingcast.Store.Channels
use pingcast.Store.Channels.{is_live}

pub get_channel-Reads : (env : Env) (id : ℕ) → Reads (Channels.get_by_id env id)
unfolding Channels.get_by_id
get_channel-Reads env id = record { same = λ w. ground arith }

pub get_channel-ok :
    (env : Env) (id : ℕ) (w : World) (ch : NotificationChannel)
    → (Channels.get_by_id env id w).0 ≡ ok ch
    → (row : ChannelRow) × (find (is_live id) w.db.channels ≡ some row) × (ch ≡ row.chan)
unfolding Channels.get_by_id
get_channel-ok env id w ch h = elim (Option-cases (find (is_live id) w.db.channels)) [
  | inl e ↦ absurd (ground arith)
  | inr (row, e) ↦ (row, e, ground arith)
]

-- ===== src/Run.antt =====
-- The life of a namenode process (namenode.c): it starts with the lists that initdatanodelist loads, and
-- then its two threads take turns, in any order, on whatever messages come: receivecommand_namenode
-- and monitorcommand_namenode. A turn is taken as a whole.
pub mod Safety
use dsproj.Common.{ℕ, pos, true, Option, some, ◌≡◌}
use dsproj.Text.{Bytes}
use dsproj.Posix.{Posix, Sent}
use dsproj.Registry.{Lists, Pong}
use dsproj.Registry.Config.{Start, started, initdatanodelist}
use dsproj.Dispatch.{Turn}
use dsproj.Namenode.{receivecommand_namenode}
use dsproj.Monitor.{Service, monitorcommand_namenode}

-- The states of the process. Which nodes answer a ping may differ from turn to turn.
pub data Reach {S : Type 0} (os : Posix S) : Service → Type 0 where
  start :
      (user : Option Bytes) (block : ℕ) (text : Bytes) (s s' : S) (lists : Lists)
      → initdatanodelist os user block text s ≡ some (started lists, s')
      → Reach os (record { replication_count = pos 0; lists = lists })
  command :
      (pong : Pong) (host msg : Bytes) (s s' : S) (turn : Turn) (sv : Service)
      → Reach os sv
      → receivecommand_namenode os pong host msg sv.lists s ≡ some (turn, s')
      → turn.running ≡ true
      → Reach os (record sv { lists = turn.lists })
  monitor :
      (host msg : Bytes) (s s' : S) (reply : Option Sent) (sv sv' : Service)
      → Reach os sv
      → monitorcommand_namenode os host msg sv s ≡ some (reply, sv', s')
      → Reach os sv'

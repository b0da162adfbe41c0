-- ===== src/StateDb.antt =====
-- base/StateDB.cc, and what a broker's queues and its resource manager hold together.
pub mod Ledger
use arl_hierarchical_multisc.Base.{Option, none, some, List, []}
use arl_hierarchical_multisc.Base.Effect.{Result, ok, err}
use arl_hierarchical_multisc.ResourceList.{ResourceList}
use arl_hierarchical_multisc.ResourceManager
use arl_hierarchical_multisc.ResourceManager.{ResourceManager}
use arl_hierarchical_multisc.Queue
use arl_hierarchical_multisc.Queue.{Queue}
use arl_hierarchical_multisc.Command.{Command}

pub record StateDb : Type 0 where
  pub queued : Queue Command
  pub running : Queue Command
  pub completed : Queue Command

abbrev pub new : StateDb
new = record { queued = Queue.new; running = Queue.new; completed = Queue.new }

abbrev check_in_held :
    ResourceManager → Command → Option ResourceList → Result (ResourceManager × Command)
check_in_held m c none = ok (m, c)
check_in_held m c (some r) = elim (ResourceManager.check_in m r) [
  | ok (m', emptied) ↦ ok (m', record c { resources = some emptied })
  | err e ↦ err e
]

-- `if(resources) resourceManager.checkIn(resources)`, which empties the list that the command
-- keeps a pointer to.
unfoldable pub release : ResourceManager → Command → Result (ResourceManager × Command)
release m c = check_in_held m c c.resources

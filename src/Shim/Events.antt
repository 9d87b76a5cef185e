-- ===== src/Shim/Events.antt =====
-- pkg/shim/events.go: the topics of the events, the forwarder and the reports of exits. What the publisher
-- gives back is only logged.
use micrun.Prelude.{List, [], ◌∷◌, Bytes, if◌then◌else◌}
use micrun.Container.Presence.{is_nil}
use micrun.Shim.Core.{
  Event, task_create, task_start, task_exec_started, task_delete, task_exit, task_paused,
  task_resumed, task_oom, task_exec_added, task_checkpointed, other, ExitEvent, blocked, Op,
  with_lock, send,
}

-- The topics of containerd.
pub data Topic : Type 0 where
  create start oom exit delete exec_added exec_started paused resumed checkpointed unknown : Topic

-- getTopic
unfoldable pub get_topic : Event → Topic
get_topic (task_create id pid) = create
get_topic (task_start id pid) = start
get_topic (task_exec_started id exec_id pid) = exec_started
get_topic (task_delete id pid status at) = delete
get_topic (task_exit cid id pid status at) = exit
get_topic (task_paused id) = paused
get_topic (task_resumed id) = resumed
get_topic (task_oom id) = oom
get_topic (task_exec_added id) = exec_added
get_topic (task_checkpointed id) = checkpointed
get_topic other = unknown

abbrev pub published : Topic → Event → List (Topic × Event) → List (Topic × Event)
published unknown e rest = rest
published topic e rest = (topic, e) ∷ rest

-- forward: what is published of the events that come through the channel
unfoldable pub forward : List Event → List (Topic × Event)
unfolding get_topic
forward [] = []
forward (e ∷ es) = published (get_topic e) e (forward es)

abbrev pub id_of : ExitEvent → Bytes
id_of e = if is_nil e.execid then e.cid else e.execid

module _ {W : Type 0} where
  -- reportExit
  unfoldable pub report_exit : ExitEvent → Op W Unit
  unfolding with_lock
  report_exit e = with_lock (send (task_exit e.cid (id_of e) e.pid e.status e.ts))

  abbrev pub received : List ExitEvent → Op W Unit
  received [] at = (at, blocked)
  received (e ∷ es) (s, w) = report_exit e (record s { exits = es }, w)

  -- A round of listenAndReportExits. A receive from a nil channel waits for ever.
  unfoldable pub listen_and_report_exits : Op W Unit
  unfolding report_exit
  listen_and_report_exits (s, w) = if s.ec_made then received s.exits (s, w) else ((s, w), blocked)

-- ===== src/Tui/Channel.antt =====
-- internal/tui/model.go: the channel through which the lines of containers reach the views. It holds
-- 100 lines; a line that finds it full is dropped.
use uruflow.Prelude.{List, [], ◌∷◌, ◌++◌, ltb, length, if◌then◌else◌}
use uruflow.Protocol.Payloads.{ContainerLogsDataPayload}
use uruflow.Server.{Callback, container_log}

-- The handler that `NewModel` sets.
abbrev pub offer :
    List ContainerLogsDataPayload → ContainerLogsDataPayload → List ContainerLogsDataPayload
offer queue p = if ltb (length queue) 100 then queue ++ p ∷ [] else queue

-- The channel after the calls of the server, while nothing is taken from it.
unfoldable pub offered :
    List ContainerLogsDataPayload → List Callback → List ContainerLogsDataPayload
offered queue [] = queue
offered queue (container_log agent_id p ∷ calls) = offered (offer queue p) calls
offered queue (_ ∷ calls) = offered queue calls

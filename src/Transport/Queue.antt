-- ===== src/Transport/Queue.antt =====
-- code/device-agent/common/Plugins/MessageQueue.cpp. Each operation holds the mutex of the queue.
use azure_client_tools.Base.{ℕ, List, [], ◌∷◌, ◌++◌, Option, none, some, length, ◌%◌, ◌^◌}
use azure_client_tools.Transport.Packets.{Message}

unfoldable pub push : Message → List Message → List Message
push m q = q ++ m ∷ []

-- The first message, or a null pointer where there is none, and the rest.
unfoldable pub pop : List Message → Option Message × List Message
pop [] = (none, [])
pop (m ∷ q) = (some m, q)

unfoldable pub size : List Message → ℕ
size q = length q % 2 ^ 32

unfoldable pub clear : List Message → List Message
clear q = []

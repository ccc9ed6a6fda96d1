-- ===== src/Relay/Exchange/Forward.antt =====
-- Where the relay sends the two messages with connection information.
use fuzzing_rdma.Base.{ℕ, Bool, ◌||◌, List, [], ◌∷◌, if◌then◌else◌}
use fuzzing_rdma.Relay.Exchange.{ConnResources, config, Recv, datagram, starts_with, Sent}

-- A datagram: the text of its sender's address, and its bytes.
abbrev pub arrive : List ℕ × List ℕ → Recv
arrive (host, payload) = datagram host payload

-- A sender whose address begins with that of the client or of the server.
abbrev pub is_party : List ℕ → Bool
is_party host = starts_with config.client_address host || starts_with config.server_address host

-- The payloads of the datagrams of both parties, in order.
abbrev pub from_parties : List (List ℕ × List ℕ) → List (List ℕ)
from_parties [] = []
from_parties ((host, payload) ∷ rest) =
    if is_party host then payload ∷ from_parties rest else from_parties rest

abbrev pub to_server : ConnResources → List ℕ → Sent
to_server c payload = (c.res_server_xch, payload)

-- ===== src/Relay/Exchange/Laws.antt =====
-- What the relay of the connection information does, and what it does not.
use fuzzing_rdma.Base.{is_negative, ℕ, ◌≡◌, true, false, some, ◌↔◌, arith}
use fuzzing_rdma.Relay.Exchange.{
  proxy_xch, proxy_rdma, client_xch, server_xch, ConnResources, Net, prepare_conn_resources,
}

-- Every call succeeds.
abbrev pub AllSucceed : Net → Type 0
AllSucceed net =
    (net.resolves proxy_xch ≡ true)
    × (is_negative net.socket_xch ≡ false)
    × (net.bind_xch ≡ true)
    × (net.resolves proxy_rdma ≡ true)
    × (is_negative net.socket_rdma ≡ false)
    × (net.bind_rdma ≡ true)
    × (net.resolves client_xch ≡ true)
    × (net.resolves server_xch ≡ true)

abbrev pub ready : Net → ConnResources
ready net = record {
  sd_xch = net.socket_xch;
  sd_rdma = net.socket_rdma;
  res_client_xch = some client_xch;
  res_server_xch = some server_xch;
}

-- `prepare_conn_resources` returns only 0, with all four resources set, and exactly when every
-- call succeeds: an error runs into the use of a pointer that was never set.
pub prepare_conn_resources_iff :
    (net : Net) (c r : ConnResources) (rc : ℕ)
    → (prepare_conn_resources net c ≡ some (rc, r)) ↔ (AllSucceed net × (rc ≡ 0) × (r ≡ ready net))
unfolding prepare_conn_resources
prepare_conn_resources_iff net c r rc = (λ e. ground arith, λ h. ground arith)

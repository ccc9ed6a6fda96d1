-- ===== src/Keyed/Typed/Laws.antt =====
-- All six programs keep to the protocol of the queue pair.
use fuzzing_rdma.Exchange.Session as Session
use fuzzing_rdma.Qp.Client as Client
use fuzzing_rdma.Qp.Client.{uint32}
use fuzzing_rdma.Qp.Server as Server
use fuzzing_rdma.Qp.Server.{poll_cq}
use fuzzing_rdma.Keyed.Improved as Improved
use fuzzing_rdma.Keyed.Improved.{start}
use fuzzing_rdma.Keyed.Storage as Storage
use fuzzing_rdma.Keyed.Storage.{rtr_call}
use fuzzing_rdma.Keyed.Storage.Client as StorageClient
use fuzzing_rdma.Keyed.Storage.Client.{hello_object}
use fuzzing_rdma.Keyed.Storage.Server as StorageServer
use fuzzing_rdma.Keyed.Storage.Server.{received_text}

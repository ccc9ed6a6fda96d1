-- ===== src/Fuzz/System/Link.antt =====
-- What the two processes promise together: a link between client and server that keeps the order
-- of the frames in both directions, loses and invents none, carries those of the server unchanged,
-- and may mutate those of the client in their InfiniBand headers. Buffers, random numbers and
-- descriptors are no part of it.
use fuzzing_rdma.Base.{Pairwise, Pairwise-append, ap, ◌∙◌, refl, ℕ, ◌≡◌, sym, List, [], ◌∷◌, ◌++◌}
use mathlib.Core.List.{append_assoc}
use fuzzing_rdma.Fuzz.Tunnel.Client.{IsFuzzed}
use fuzzing_rdma.Fuzz.System.{State}
use fuzzing_rdma.Fuzz.System.Laws.{move}

-- The frames that were sent, those under way, and those that came out, in both directions.
pub record Link : Type 0 where
  pub client_sent : List (List ℕ)
  pub server_sent : List (List ℕ)
  pub up : List (List ℕ)
  pub down : List (List ℕ)
  pub at_server : List (List ℕ)
  pub at_client : List (List ℕ)

abbrev pub empty : Link
empty = record {
  client_sent = [];
  server_sent = [];
  up = [];
  down = [];
  at_server = [];
  at_client = [];
}

pub data LinkStep : Link → Link → Type 0 where
  client_sends :
      (l : Link) (x : List ℕ)
      → LinkStep l (record l { client_sent = l.client_sent ++ (x ∷ []); up = l.up ++ (x ∷ []) })
  server_sends :
      (l : Link) (x : List ℕ)
      → LinkStep l (record l { server_sent = l.server_sent ++ (x ∷ []); down = l.down ++ (x ∷ []) })
  arrives_fuzzed :
      (l : Link) (x out : List ℕ) (rest : List (List ℕ))
      → l.up ≡ x ∷ rest
      → IsFuzzed x out
      → LinkStep l (record l { up = rest; at_server = l.at_server ++ (out ∷ []) })
  arrives :
      (l : Link) (x : List ℕ) (rest : List (List ℕ))
      → l.down ≡ x ∷ rest
      → LinkStep l (record l { down = rest; at_client = l.at_client ++ (x ∷ []) })

pub data LinkReach (l : Link) : Link → Type 0 where
  here : LinkReach l l
  then_step : {m n : Link} → LinkReach l m → LinkStep m n → LinkReach l n

-- What the link promises, which a state with a frame lost, invented or out of order does not keep.
pub record IsOrderly (l : Link) : Type 0 where
  pub to_client : l.at_client ++ l.down ≡ l.server_sent
  pub to_server :
      (carried : List (List ℕ)) × (carried ++ l.up ≡ l.client_sent)
      × Pairwise IsFuzzed carried l.at_server

LinkStep-IsOrderly : {l m : Link} → LinkStep l m → IsOrderly l → IsOrderly m
LinkStep-IsOrderly (client_sends l x) h =
    let (carried, e, k) = h.to_server in
    record {
      to_client = h.to_client;
      to_server =
          (carried, sym (append_assoc carried l.up (x ∷ [])) ∙ ap (λ q. q ++ (x ∷ [])) e, k);
    }
LinkStep-IsOrderly (server_sends l x) h = record {
  to_server = h.to_server;
  to_client = sym (append_assoc l.at_client l.down (x ∷ [])) ∙ ap (λ q. q ++ (x ∷ [])) h.to_client;
}
LinkStep-IsOrderly (arrives_fuzzed l x out rest e fuzzed) h =
    let (carried, g, k) = h.to_server in
    record {
      to_client = h.to_client;
      to_server = (
        carried ++ (x ∷ []),
        move carried rest x l.up l.client_sent e g,
        Pairwise-append IsFuzzed carried l.at_server x out k fuzzed,
      );
    }
LinkStep-IsOrderly (arrives l x rest e) h = record {
  to_server = h.to_server;
  to_client = move l.at_client rest x l.down l.server_sent e h.to_client;
}

pub LinkReach-IsOrderly : {l : Link} → LinkReach empty l → IsOrderly l
LinkReach-IsOrderly here = record { to_client = refl; to_server = ([], refl, tt) }
LinkReach-IsOrderly (then_step reach step) = LinkStep-IsOrderly step (LinkReach-IsOrderly reach)

-- The link that a state of the two processes stands for.
abbrev pub link : {R : Type 0} → State R → Link
link s = record {
  client_sent = s.client_sent;
  server_sent = s.server_sent;
  up = s.from_client;
  down = s.from_server;
  at_server = s.to_server;
  at_client = s.to_client;
}

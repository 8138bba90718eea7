-- ===== src/Node.antt =====
-- consensus/src/node.rs: `start`, which sets the services of a node up. Modelled is what it tells
-- the gossip service to listen on and to dial; the tasks that it spawns are those of the other
-- modules.
pub mod Peers
use validated_streams.Base.{ℕ, List, [], ◌∷◌, Option, none, some, traverse, Bool}
use validated_streams.Config.{PortOrOffset}
use validated_streams.Config.Multiaddr.{
  Protocol, udp, tcp, p2p, other_protocol, MultiaddrOps, adjust_multiaddr,
}
use validated_streams.Gossip.{
  Channel, Sending, sent, waiting, unserved, connect_to, listen_on_address,
}

-- The parts of `NetworkConfiguration` and `ValidatedStreamsNetworkConfiguration` that are read.
pub record NetworkConfiguration (Multiaddr : Type 0) : Type 0 where
  pub listen_addresses : List Multiaddr
  pub boot_nodes : List Multiaddr

pub record ValidatedStreamsNetworkConfiguration (Multiaddr : Type 0) : Type 0 where
  pub gossip_port : PortOrOffset
  pub gossip_bootnodes : List Multiaddr

module _ {Multiaddr : Type 0} (M : MultiaddrOps Multiaddr) (fuel : ℕ) where
  -- The `match addr.pop()`, which removes a final `/p2p/..` part.
  pub strip_p2p : Multiaddr → Multiaddr
  strip_p2p addr = elim (M.pop addr) [
    | some (rest, p2p _) ↦ rest
    | some (rest, udp n) ↦ M.push rest (udp n)
    | some (rest, tcp n) ↦ M.push rest (tcp n)
    | some (rest, other_protocol x) ↦ M.push rest (other_protocol x)
    | none ↦ addr
  ]

  -- the address to dial for a boot node of the chain's network
  pub boot_node_peer : PortOrOffset → Multiaddr → Option Multiaddr
  boot_node_peer gossip_port addr = elim (adjust_multiaddr M gossip_port fuel addr) [
    | none ↦ none
    | some adjusted ↦ some (strip_p2p adjusted)
  ]

  unfoldable pub gossip_peers :
      NetworkConfiguration Multiaddr
      → ValidatedStreamsNetworkConfiguration Multiaddr
      → Option (List Multiaddr)
  gossip_peers network vs = elim (vs.gossip_bootnodes) [
    | [] ↦ traverse (boot_node_peer vs.gossip_port) network.boot_nodes
    | peer ∷ peers ↦ some (peer ∷ peers)
  ]

  unfoldable pub gossip_listen_addresses :
      NetworkConfiguration Multiaddr
      → ValidatedStreamsNetworkConfiguration Multiaddr
      → Option (List Multiaddr)
  gossip_listen_addresses network vs =
      traverse (adjust_multiaddr M vs.gossip_port fuel) network.listen_addresses

abbrev stalled : {Multiaddr : Type 0} → Sending Multiaddr → Sending Multiaddr
stalled (sent c) = waiting c
stalled (waiting c) = waiting c

module _ {Multiaddr : Type 0} (M : MultiaddrOps Multiaddr) (fuel : ℕ)
    (has_room : ℕ → ℕ → Bool) where
  -- the `join_all` of the calls of `listen`: all of them are made, and it waits if one of them does
  pub listen_all : List Multiaddr → Channel Multiaddr → Sending Multiaddr
  unfolding unserved listen_on_address
  listen_all [] c = sent c
  listen_all (a ∷ addrs) c = elim (unserved has_room (listen_on_address a) c) [
    | sent c' ↦ listen_all addrs c'
    | waiting c' ↦ stalled (listen_all addrs c')
  ]

  -- What the spawned task sends before it runs the service, which receives nothing till then.
  pub start :
      NetworkConfiguration Multiaddr
      → ValidatedStreamsNetworkConfiguration Multiaddr
      → Channel Multiaddr
      → Option (Sending Multiaddr)
  start network vs c = elim (gossip_listen_addresses M fuel network vs) [
    | none ↦ none
    | some addrs ↦ elim (gossip_peers M fuel network vs) [
      | none ↦ none
      | some peers ↦ some (elim (listen_all addrs c) [
        | sent c' ↦ unserved has_room (connect_to peers) c'
        | waiting c' ↦ waiting c'
      ])
    ]
  ]

-- ===== src/Gossip.antt =====
-- consensus/src/gossip/mod.rs: the actor that owns the swarm of peers. The swarm is libp2p's.
pub mod Delivery
use validated_streams.Base.{
  ℕ, List, [], ◌∷◌, ◌++◌, Bool, true, String, Result, if◌then◌else◌, ◌<◌, ◌≡◌, length,
}
use validated_streams.Primitives.{Bytes}

-- `enum GossipOrder`
pub data GossipOrder (Multiaddr : Type 0) : Type 0 where
  send_message : String → Bytes → GossipOrder Multiaddr
  dial_peers : List Multiaddr → GossipOrder Multiaddr
  listen : Multiaddr → GossipOrder Multiaddr

-- The channel between a `Gossip` and its `GossipService`: the orders not received yet, the oldest
-- first, how many of them it holds before a sender waits, and whether the service is still there to
-- receive them.
pub record Channel (Multiaddr : Type 0) : Type 0 where
  pub connected : Bool
  pub capacity : ℕ
  pub orders : List (GossipOrder Multiaddr)

module _ {Multiaddr : Type 0} where
  -- `Gossip::create`
  unfoldable pub create : Channel Multiaddr
  create = record { connected = true; capacity = 64; orders = [] }

  -- The order is in the channel when this returns; a sender to a full channel has waited for the
  -- service till then. An error is only logged.
  abbrev pub send_order : GossipOrder Multiaddr → Channel Multiaddr → Channel Multiaddr
  send_order order c = if c.connected then record c { orders = c.orders ++ order ∷ [] } else c

  unfoldable pub publish : String → Bytes → Channel Multiaddr → Channel Multiaddr
  publish topic message = send_order (send_message topic message)

  unfoldable pub connect_to : List Multiaddr → Channel Multiaddr → Channel Multiaddr
  connect_to peers = send_order (dial_peers peers)

  -- `Gossip::listen`
  unfoldable pub listen_on_address : Multiaddr → Channel Multiaddr → Channel Multiaddr
  listen_on_address address = send_order (listen address)

-- Whether a call that sends one order returns, in a channel that no service receives from yet.
pub data Sending (Multiaddr : Type 0) : Type 0 where
  sent waiting : Channel Multiaddr → Sending Multiaddr

-- The channel of `futures`: whether a sender goes on at once, from the capacity and the number of
-- orders not received. Below the capacity it does.
abbrev pub IsBounded : (ℕ → ℕ → Bool) → Type 0
IsBounded has_room = (capacity n : ℕ) → n < capacity → has_room capacity n ≡ true

module _ {Multiaddr : Type 0} (has_room : ℕ → ℕ → Bool) where
  -- The `.await` of `send_order`, before `GossipService::run`.
  unfoldable pub unserved :
      (Channel Multiaddr → Channel Multiaddr) → Channel Multiaddr → Sending Multiaddr
  unserved send c =
      if c.connected
      then if has_room c.capacity (length c.orders) then sent (send c) else waiting (send c)
      else sent (send c)

-- What the service calls on the swarm and its behaviours.
pub record SwarmOps (Multiaddr PeerId Swarm : Type 0) : Type 0 where
  pub subscribe : String → Swarm → Swarm
  pub gossipsub_publish : String → Bytes → Swarm → Result String (Unit {0}) × Swarm
  pub dial : Multiaddr → Swarm → Result String (Unit {0}) × Swarm
  pub listen_on : Multiaddr → Swarm → Result String (Unit {0}) × Swarm
  pub add_address : PeerId → Multiaddr → Swarm → Swarm

-- `SwarmEvent`, the cases that the code names
pub data SwarmEvent (Multiaddr PeerId : Type 0) : Type 0 where
  new_listen_addr : Multiaddr → SwarmEvent Multiaddr PeerId
  subscribed : PeerId → String → SwarmEvent Multiaddr PeerId
  message : Bytes → SwarmEvent Multiaddr PeerId
  identify_received : PeerId → List Multiaddr → SwarmEvent Multiaddr PeerId
  other_event : SwarmEvent Multiaddr PeerId

-- The service at work: its swarm, and the state behind the handler.
pub record Service (Swarm Handler : Type 0) : Type 0 where
  pub swarm : Swarm
  pub handler : Handler

-- One turn of `select!`: an order from the channel, or an event of the swarm.
pub data Input (Multiaddr PeerId : Type 0) : Type 0 where
  order : GossipOrder Multiaddr → Input Multiaddr PeerId
  event : SwarmEvent Multiaddr PeerId → Input Multiaddr PeerId

module _ {Multiaddr PeerId Swarm Handler : Type 0} (W : SwarmOps Multiaddr PeerId Swarm)
    (handle : Bytes → Handler → Handler) where
  -- the function `dial_peers`; a failed dial is only logged
  pub dial_all : List Multiaddr → Swarm → Swarm
  dial_all [] w = w
  dial_all (peer ∷ peers) w = dial_all peers (W.dial peer w).1

  pub add_addresses : PeerId → List Multiaddr → Swarm → Swarm
  add_addresses peer_id [] w = w
  add_addresses peer_id (addr ∷ addrs) w =
      add_addresses peer_id addrs (W.add_address peer_id addr w)

  pub handle_incoming_order : GossipOrder Multiaddr → Service Swarm Handler → Service Swarm Handler
  handle_incoming_order (send_message topic m) s = record {
    swarm = (W.gossipsub_publish topic m s.swarm).1;
    handler = handle m s.handler;
  }
  handle_incoming_order (dial_peers peers) s = record s { swarm = dial_all peers s.swarm }
  handle_incoming_order (listen addr) s = record s { swarm = (W.listen_on addr s.swarm).1 }

  pub handle_incoming_event :
      SwarmEvent Multiaddr PeerId → Service Swarm Handler → Service Swarm Handler
  handle_incoming_event (new_listen_addr addr) s = s
  handle_incoming_event (subscribed peer_id topic) s = s
  handle_incoming_event (message m) s = record s { handler = handle m s.handler }
  handle_incoming_event (identify_received peer_id addrs) s = record s {
    swarm = add_addresses peer_id addrs s.swarm;
  }
  handle_incoming_event other_event s = s

  -- The loop never ends; this is what it has done after the given turns.
  pub run_loop : List (Input Multiaddr PeerId) → Service Swarm Handler → Service Swarm Handler
  run_loop [] s = s
  run_loop (order o ∷ inputs) s = run_loop inputs (handle_incoming_order o s)
  run_loop (event e ∷ inputs) s = run_loop inputs (handle_incoming_event e s)

  pub subscribe_all : List String → Swarm → Swarm
  subscribe_all [] w = w
  subscribe_all (topic ∷ topics) w = subscribe_all topics (W.subscribe topic w)

  pub run :
      List String → List (Input Multiaddr PeerId) → Service Swarm Handler → Service Swarm Handler
  unfolding run_loop subscribe_all
  run topics inputs s = run_loop inputs (record s { swarm = subscribe_all topics s.swarm })

-- ===== src/Gossip/Delivery.antt =====
-- Which messages the handler of a gossip service sees.
use validated_streams.Base.{◌≡◌, refl, List, [], ◌∷◌, String}
use validated_streams.Gossip.{
  send_message, dial_peers, listen, SwarmOps, new_listen_addr, subscribed, message,
  identify_received, other_event, Service, Input, order, event, handle_incoming_order,
  handle_incoming_event, run_loop, run,
}
use validated_streams.Primitives.{Bytes}

module _ {Multiaddr PeerId : Type 0} where
  -- The messages among the inputs: those sent by this node, and those received.
  abbrev pub messages : List (Input Multiaddr PeerId) → List Bytes
  messages [] = []
  messages (order (send_message _ m) ∷ is) = m ∷ messages is
  messages (order (dial_peers _) ∷ is) = messages is
  messages (order (listen _) ∷ is) = messages is
  messages (event (message m) ∷ is) = m ∷ messages is
  messages (event (new_listen_addr _) ∷ is) = messages is
  messages (event (subscribed _ _) ∷ is) = messages is
  messages (event (identify_received _ _) ∷ is) = messages is
  messages (event other_event ∷ is) = messages is

abbrev pub handle_all :
    {Handler : Type 0} → (Bytes → Handler → Handler) → List Bytes → Handler → Handler
handle_all handle [] h = h
handle_all handle (m ∷ ms) h = handle_all handle ms (handle m h)

module _ {Multiaddr PeerId Swarm Handler : Type 0} (W : SwarmOps Multiaddr PeerId Swarm)
    (handle : Bytes → Handler → Handler) where
  handler-run_loop :
      (is : List (Input Multiaddr PeerId)) (s : Service Swarm Handler)
      → (run_loop W handle is s).handler ≡ handle_all handle (messages is) s.handler
  unfolding run_loop handle_incoming_order handle_incoming_event
  handler-run_loop [] s = refl
  handler-run_loop (order (send_message t m) ∷ is) s = handler-run_loop is _
  handler-run_loop (order (dial_peers ps) ∷ is) s = handler-run_loop is _
  handler-run_loop (order (listen a) ∷ is) s = handler-run_loop is _
  handler-run_loop (event (message m) ∷ is) s = handler-run_loop is _
  handler-run_loop (event (new_listen_addr a) ∷ is) s = handler-run_loop is _
  handler-run_loop (event (subscribed p t) ∷ is) s = handler-run_loop is _
  handler-run_loop (event (identify_received p addrs) ∷ is) s = handler-run_loop is _
  handler-run_loop (event other_event ∷ is) s = handler-run_loop is _

  -- Whatever the swarm answers, to dialing, listening or publishing, the handler has been given
  -- each message that this node sent and each that it received, once and in their order.
  pub handler-run :
      (topics : List String) (is : List (Input Multiaddr PeerId)) (s : Service Swarm Handler)
      → (run W handle topics is s).handler ≡ handle_all handle (messages is) s.handler
  unfolding run
  handler-run topics is s = handler-run_loop is _

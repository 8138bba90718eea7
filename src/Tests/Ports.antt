-- ===== src/Tests/Ports.antt =====
-- Ports and addresses.
use validated_streams.Base.{
  ℕ, Bool, ltb, map, true, ◌≡◌, refl, List, [], ◌∷◌, ◌++◌, Option, none, some, ok, arith,
}
use validated_streams.Config.{offset, fmt, from_str}
use validated_streams.Config.Decimal.{pos, negsuc}
use validated_streams.Config.Multiaddr.{
  Protocol, tcp, p2p, other_protocol, MultiaddrOps, IsMultiaddr, adjust_multiaddr,
}
use validated_streams.Config.Multiaddr.Reversed.{adjusted, adjust_multiaddr_lem}
use validated_streams.Config.RoundTrip.{from_str-fmt}
use validated_streams.Gossip.{create, listen, dial_peers, sent, IsBounded}
use validated_streams.Node.{
  NetworkConfiguration, ValidatedStreamsNetworkConfiguration, boot_node_peer, start,
  gossip_listen_addresses, gossip_peers,
}
use validated_streams.Node.Peers.{boot_node_peer_lem, start_lem}

from_str-fmt_example : from_str (fmt (offset (negsuc 32767))) ≡ ok (offset (negsuc 32767))
from_str-fmt_example = from_str-fmt (offset (negsuc 32767)) (omega arith)

-- Addresses as lists of protocols.
abbrev pop : List Protocol → Option (List Protocol × Protocol)
pop [] = none
pop (p ∷ ps) = elim (pop ps) [ none ↦ some ([], p) | some (rest, last) ↦ some (p ∷ rest, last) ]

abbrev addresses : MultiaddrOps (List Protocol)
addresses = record { pop = pop; push = λ a p. a ++ p ∷ [] }

abbrev view : List Protocol → List Protocol
view a = a

pop-append : (ps : List Protocol) (p : Protocol) → pop (ps ++ p ∷ []) ≡ some (ps, p)
pop-append [] p = refl
pop-append (q ∷ ps) p = rw (pop-append ps p)

addresses-IsMultiaddr : IsMultiaddr addresses view
addresses-IsMultiaddr = record {
  view-push = λ a p. refl;
  pop-nil = λ a h. rw h;
  pop-snoc = λ a ps p h. (ps, rw h (pop-append ps p), refl);
}

-- What follows the port ends up in front of it.
adjust_multiaddr_lem_example :
    (b : List Protocol) × (adjust_multiaddr addresses
        (offset (pos 10))
        3
        (other_protocol [] ∷ tcp 30333 ∷ p2p [] ∷ [])
      ≡ some b)
    × (b ≡ other_protocol [] ∷ p2p [] ∷ adjusted (offset (pos 10)) (tcp 30333) ∷ [])
adjust_multiaddr_lem_example =
    adjust_multiaddr_lem addresses view addresses-IsMultiaddr (offset (pos 10)) 3
      (other_protocol [] ∷ tcp 30333 ∷ p2p [] ∷ []) (other_protocol [] ∷ []) (tcp 30333)
      (p2p [] ∷ []) refl refl (refl, tt) (omega arith)

-- The boot node of a chain's network, with the port of the gossip network ten above.
abbrev boot_node : List Protocol
boot_node = other_protocol [] ∷ tcp 30333 ∷ p2p [] ∷ []

boot_node_peer_lem_example :
    (b : List Protocol) × (boot_node_peer addresses 3 (offset (pos 10)) boot_node ≡ some b)
    × (b ≡ other_protocol [] ∷ p2p [] ∷ adjusted (offset (pos 10)) (tcp 30333) ∷ [])
boot_node_peer_lem_example =
    boot_node_peer_lem addresses view addresses-IsMultiaddr 3 (offset (pos 10)) boot_node
      (other_protocol [] ∷ []) (tcp 30333) (p2p [] ∷ []) refl refl (refl, tt) (omega arith)

abbrev network : NetworkConfiguration (List Protocol)
network = record { listen_addresses = (tcp 30333 ∷ []) ∷ []; boot_nodes = boot_node ∷ [] }

abbrev vs_network : ValidatedStreamsNetworkConfiguration (List Protocol)
vs_network = record { gossip_port = offset (pos 10); gossip_bootnodes = [] }

-- The channel takes as many orders as its capacity before a sender waits.
abbrev has_room : ℕ → ℕ → Bool
has_room capacity n = ltb n capacity

has_room-IsBounded : IsBounded has_room
has_room-IsBounded capacity n below = ground (arith, below)

start_lem_example :
    (addrs peers : List (List Protocol)) × (gossip_listen_addresses addresses 4 network vs_network
      ≡ some addrs)
    × (gossip_peers addresses 4 network vs_network ≡ some peers)
    × (start addresses 4 has_room network vs_network create
        ≡ some (
            sent (record {
              connected = true;
              capacity = 64;
              orders = map listen addrs ++ dial_peers peers ∷ [];
            })))
start_lem_example =
    start_lem addresses view addresses-IsMultiaddr 4 has_room has_room-IsBounded network vs_network
      (omega arith, tt) (omega arith, tt) (omega arith)

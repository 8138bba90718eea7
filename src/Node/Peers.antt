-- ===== src/Node/Peers.antt =====
-- Which addresses a node dials (consensus/src/node.rs).
use validated_streams.Base.{
  ℕ, ◌<◌, ◌≡◌, refl, sym, ap, ◌∙◌, List, [], ◌∷◌, ◌++◌, true, false, some, length, length-append,
  All, map, traverse, Bool, ◌⊎◌, inl, inr, ◌≤◌, ◌+◌, suc, Option, arith,
}
use validated_streams.Config.{PortOrOffset}
use validated_streams.Config.Multiaddr.{
  Protocol, udp, tcp, p2p, other_protocol, MultiaddrOps, IsMultiaddr, adjust_multiaddr,
}
use validated_streams.Config.Multiaddr.Reversed.{
  has_port, adjusted, followed_by, adjust_multiaddr-ends, adjust_multiaddr_lem,
}
use validated_streams.Gossip.{
  create, GossipOrder, listen, dial_peers, sent, unserved, IsBounded, connect_to, listen_on_address,
}
use validated_streams.Node.{
  NetworkConfiguration, ValidatedStreamsNetworkConfiguration, strip_p2p, boot_node_peer,
  gossip_peers, gossip_listen_addresses, listen_all, start,
}
use mathlib.Core.List.{append_assoc, append-nil}

List-cases : {A : Type 0} (xs : List A) → (xs ≡ []) ⊎ ((y : A) × (ys : List A) × (xs ≡ y ∷ ys))
List-cases [] = inl refl
List-cases (x ∷ xs) = inr (x, xs, refl)

length-map : {A B : Type 0} (f : A → B) (xs : List A) → length (map f xs) ≡ length xs
length-map f [] = refl
length-map f (x ∷ xs) = ap suc (length-map f xs)

traverse-some :
    {A B : Type 0} {P : A → Type 0} (f : A → Option B)
    → ((x : A) → P x → (y : B) × (f x ≡ some y))
    → (xs : List A) → All P xs
    → (ys : List B) × (traverse f xs ≡ some ys) × (length ys ≡ length xs)
traverse-some f g [] all = ([], refl, refl)
traverse-some f g (x ∷ xs) (p, all) =
    let (y, e) = g x p in
    let (ys, es, same) = traverse-some f g xs all in (y ∷ ys, rw (e, es, traverse), ap suc same)

module _ {Multiaddr : Type 0} (M : MultiaddrOps Multiaddr) (view : Multiaddr → List Protocol)
    (lawful : IsMultiaddr M view) (fuel : ℕ) where
  -- An address that ends in a port is not changed.
  strip_p2p-port :
      (a : Multiaddr) (ps : List Protocol) (t : Protocol)
      → view a ≡ ps ++ t ∷ []
      → has_port t ≡ true
      → view (strip_p2p M fuel a) ≡ ps ++ t ∷ []
  unfolding strip_p2p
  strip_p2p-port a ps (udp n) v h =
      let (rest, popped, left) = lawful.pop-snoc a ps (udp n) v in
      rw (popped, strip_p2p) (lawful.view-push rest (udp n) ∙ ap (λ l. l ++ udp n ∷ []) left)
  strip_p2p-port a ps (tcp n) v h =
      let (rest, popped, left) = lawful.pop-snoc a ps (tcp n) v in
      rw (popped, strip_p2p) (lawful.view-push rest (tcp n) ∙ ap (λ l. l ++ tcp n ∷ []) left)
  strip_p2p-port a ps (p2p x) v h = cc
  strip_p2p-port a ps (other_protocol x) v h = cc

  has_port-adjusted :
      (self : PortOrOffset) (t : Protocol) → has_port t ≡ true → has_port (adjusted self t) ≡ true
  has_port-adjusted self (udp n) h = refl
  has_port-adjusted self (tcp n) h = refl
  has_port-adjusted self (p2p x) h = cc
  has_port-adjusted self (other_protocol x) h = cc

  boot_node_peer-ends :
      (self : PortOrOffset) (a : Multiaddr)
      → length (view a) < fuel
      → (b : Multiaddr) × (boot_node_peer M fuel self a ≡ some b)
  unfolding boot_node_peer
  boot_node_peer-ends self a f =
      let (b, done) = adjust_multiaddr-ends M view lawful self fuel a f in
      (strip_p2p M fuel b, rw (done, boot_node_peer))

  gossip_listen_addresses-ends :
      (network : NetworkConfiguration Multiaddr)
      (vs : ValidatedStreamsNetworkConfiguration Multiaddr)
      → All (λ a. length (view a) < fuel) network.listen_addresses
      → (addrs : List Multiaddr) × (gossip_listen_addresses M fuel network vs ≡ some addrs)
        × (length addrs ≡ length network.listen_addresses)
  unfolding gossip_listen_addresses
  gossip_listen_addresses-ends network vs enough =
      traverse-some (adjust_multiaddr M vs.gossip_port fuel)
        (adjust_multiaddr-ends M view lawful vs.gossip_port fuel) network.listen_addresses enough

  gossip_peers-ends :
      (network : NetworkConfiguration Multiaddr)
      (vs : ValidatedStreamsNetworkConfiguration Multiaddr)
      → All (λ a. length (view a) < fuel) network.boot_nodes
      → (peers : List Multiaddr) × (gossip_peers M fuel network vs ≡ some peers)
  unfolding gossip_peers
  gossip_peers-ends network vs enough = elim (List-cases vs.gossip_bootnodes) [
    | inl e ↦
        let (peers, done, _) =
          traverse-some (boot_node_peer M fuel vs.gossip_port) (boot_node_peer-ends vs.gossip_port)
            network.boot_nodes enough in
        (peers, rw (e, gossip_peers) done)
    | inr (peer, peers, e) ↦ (peer ∷ peers, rw (e, gossip_peers))
  ]

  module _ (has_room : ℕ → ℕ → Bool) (bounded : IsBounded has_room) where
    -- Below the capacity the calls return, and their orders stand in the channel, in order.
    listen_all-orders :
        (addrs : List Multiaddr) (capacity : ℕ) (orders : List (GossipOrder Multiaddr))
        → length orders + length addrs ≤ capacity
        → listen_all M fuel has_room addrs
            (record { connected = true; capacity = capacity; orders = orders })
          ≡ sent (record {
            connected = true;
            capacity = capacity;
            orders = orders ++ map listen addrs;
          })
    unfolding listen_all unserved listen_on_address
    listen_all-orders [] capacity orders f =
        ap (λ l. sent (record { connected = true; capacity = capacity; orders = l }))
          (sym (append-nil orders))
    listen_all-orders (a ∷ addrs) capacity orders f =
        rw (bounded capacity (length orders) (omega arith), listen_all)
          (listen_all-orders addrs capacity (orders ++ listen a ∷ [])
              (omega (arith, f, length-append orders (listen a ∷ [])))
            ∙ ap (λ l. sent (record { connected = true; capacity = capacity; orders = l }))
                (append_assoc orders (listen a ∷ []) (map listen addrs)))

    -- Let the fuel be more than the protocols of any listen address and of any boot node of the
    -- chain's network, let there be fewer than 64 listen addresses, and let no one else have sent
    -- an order. Then the adjusted listen addresses and the peers are found, and, though the gossip
    -- service receives nothing till then, all calls return: it is told to listen on each of the
    -- adjusted addresses, in order, and after all of these to dial the peers.
    pub start_lem :
        (network : NetworkConfiguration Multiaddr)
        (vs : ValidatedStreamsNetworkConfiguration Multiaddr)
        → All (λ a. length (view a) < fuel) network.listen_addresses
        → All (λ a. length (view a) < fuel) network.boot_nodes
        → length network.listen_addresses < 64
        → (addrs peers : List Multiaddr) × (gossip_listen_addresses M fuel network vs ≡ some addrs)
          × (gossip_peers M fuel network vs ≡ some peers)
          × (start M fuel has_room network vs create
              ≡ some (
                  sent (record {
                    connected = true;
                    capacity = 64;
                    orders = map listen addrs ++ dial_peers peers ∷ [];
                  })))
    unfolding start create connect_to unserved
    start_lem network vs listens dials few =
        let (addrs, found, same) = gossip_listen_addresses-ends network vs listens in
        let (peers, known) = gossip_peers-ends network vs dials in
        (
          addrs,
          peers,
          found,
          known,
          rw (
            found,
            known,
            start,
            listen_all-orders addrs 64 [] (omega (arith, few, same)),
            bounded 64 (length (map listen addrs))
                (omega (arith, few, same, length-map listen addrs)),
          ),
        )

  -- For a boot node whose last protocol with a port is `t`, which the protocols of `post` follow,
  -- the last of them first, and with more fuel than these, the address that is dialed ends in the
  -- port. Nothing is removed from it: a final `/p2p/..` part stands in front of the port.
  pub boot_node_peer_lem :
      (self : PortOrOffset) (a : Multiaddr) (pre : List Protocol) (t : Protocol)
      (post : List Protocol)
      → view a ≡ followed_by (pre ++ t ∷ []) post
      → has_port t ≡ true
      → All (λ p. has_port p ≡ false) post
      → length post < fuel
      → (b : Multiaddr) × (boot_node_peer M fuel self a ≡ some b)
        × (view b ≡ (pre ++ post) ++ adjusted self t ∷ [])
  unfolding boot_node_peer
  boot_node_peer_lem self a pre t post v h hs f =
      let (b, done, seen) = adjust_multiaddr_lem M view lawful self fuel a pre t post v h hs f in
      (
        strip_p2p M fuel b,
        rw (done, boot_node_peer),
        strip_p2p-port b (pre ++ post) (adjusted self t)
            (seen ∙ sym (append_assoc pre post (adjusted self t ∷ [])))
            (has_port-adjusted self t h),
      )

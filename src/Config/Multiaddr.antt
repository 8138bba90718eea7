-- ===== src/Config/Multiaddr.antt =====
-- `PortOrOffset::adjust_multiaddr` (consensus/src/config.rs), over the `multiaddr` crate.
pub mod Reversed
use validated_streams.Base.{
  ℕ, zero, suc, ◌+◌, ◌<◌, ◌≡◌, refl, sym, ap, ◌∙◌, List, [], ◌∷◌, ◌++◌, reverse, Option, none, some,
  Bool, true, false, length, length-append, All, arith,
}
use validated_streams.Config.{PortOrOffset, adjust_port}
use validated_streams.Primitives.{Bytes}
use mathlib.Core.List.{append-nil, append_assoc}

-- `libp2p::core::multiaddr::Protocol`, the cases that the code names
pub data Protocol : Type 0 where
  udp tcp : ℕ → Protocol
  p2p : Bytes → Protocol
  other_protocol : Bytes → Protocol

-- `Multiaddr::pop` and `push` at the end of an address
pub record MultiaddrOps (Multiaddr : Type 0) : Type 0 where
  pub pop : Multiaddr → Option (Multiaddr × Protocol)
  pub push : Multiaddr → Protocol → Multiaddr

-- An address is a sequence of protocols: `view` lists them from front to back.
pub record IsMultiaddr {Multiaddr : Type 0} (M : MultiaddrOps Multiaddr)
    (view : Multiaddr → List Protocol) : Type 0 where
  pub view-push : (a : Multiaddr) (p : Protocol) → view (M.push a p) ≡ view a ++ p ∷ []
  pub pop-nil : (a : Multiaddr) → view a ≡ [] → M.pop a ≡ none
  pub pop-snoc :
      (a : Multiaddr) (ps : List Protocol) (p : Protocol)
      → view a ≡ ps ++ p ∷ []
      → (a' : Multiaddr) × (M.pop a ≡ some (a', p)) × (view a' ≡ ps)

module _ {Multiaddr : Type 0} (M : MultiaddrOps Multiaddr) (self : PortOrOffset) where
  -- The `loop`, on fuel, with the vector `protocols`; `none` if the fuel runs out.
  unfoldable pub adjust_loop : ℕ → Multiaddr → List Protocol → Option (Multiaddr × List Protocol)
  adjust_loop zero addr protocols = none
  adjust_loop (suc fuel) addr protocols = elim (M.pop addr) [
    | none ↦ some (addr, protocols)
    | some (rest, udp port) ↦ some (rest, protocols ++ udp (adjust_port self port) ∷ [])
    | some (rest, tcp port) ↦ some (rest, protocols ++ tcp (adjust_port self port) ∷ [])
    | some (rest, protocol) ↦ adjust_loop fuel rest (protocols ++ protocol ∷ [])
  ]

  -- `into_iter().for_each(|protocol| addr.push(protocol))`
  unfoldable pub push_all : Multiaddr → List Protocol → Multiaddr
  push_all addr [] = addr
  push_all addr (p ∷ ps) = push_all (M.push addr p) ps

  unfoldable pub adjust_multiaddr : ℕ → Multiaddr → Option Multiaddr
  adjust_multiaddr fuel addr = elim (adjust_loop fuel addr []) [
    | none ↦ none
    | some (rest, protocols) ↦ some (push_all rest protocols)
  ]

-- ===== src/Config/Multiaddr/Reversed.antt =====
-- What `adjust_multiaddr` does to an address: what follows the port comes before it, reversed.
use validated_streams.Base.{
  ℕ, zero, suc, ◌<◌, ◌≡◌, sym, ap, ◌∙◌, List, [], ◌∷◌, ◌++◌, some, Bool, true, false, length,
  length-append, Bool-cases, ◌⊎◌, inl, inr, refl, All, arith,
}
use validated_streams.Config.{PortOrOffset, adjust_port}
use validated_streams.Config.Multiaddr.{
  Protocol, udp, tcp, p2p, other_protocol, MultiaddrOps, IsMultiaddr, adjust_loop, push_all,
  adjust_multiaddr,
}
use mathlib.Core.List.{append-nil, append_assoc}

abbrev pub has_port : Protocol → Bool
has_port (udp _) = true
has_port (tcp _) = true
has_port (p2p _) = false
has_port (other_protocol _) = false

abbrev pub adjusted : PortOrOffset → Protocol → Protocol
adjusted self (udp n) = udp (adjust_port self n)
adjusted self (tcp n) = tcp (adjust_port self n)
adjusted self (p2p id) = p2p id
adjusted self (other_protocol p) = other_protocol p

-- `ps` in front of the reverse of `qs`.
abbrev pub followed_by : List Protocol → List Protocol → List Protocol
followed_by ps [] = ps
followed_by ps (q ∷ qs) = followed_by ps qs ++ q ∷ []

module _ {Multiaddr : Type 0} (M : MultiaddrOps Multiaddr) (view : Multiaddr → List Protocol)
    (lawful : IsMultiaddr M view) (self : PortOrOffset) where
  view-push_all : (a : Multiaddr) (ps : List Protocol) → view (push_all M self a ps) ≡ view a ++ ps
  unfolding push_all
  view-push_all a [] = sym (append-nil (view a))
  view-push_all a (p ∷ ps) =
      view-push_all (M.push a p) ps
      ∙ ap (λ l. l ++ ps) (lawful.view-push a p)
      ∙ append_assoc (view a) (p ∷ []) ps

  loop-stop :
      (fuel : ℕ) (a rest : Multiaddr) (t : Protocol) (acc : List Protocol)
      → M.pop a ≡ some (rest, t)
      → has_port t ≡ true
      → adjust_loop M self (suc fuel) a acc ≡ some (rest, acc ++ adjusted self t ∷ [])
  unfolding adjust_loop
  loop-stop fuel a rest (udp n) acc e h = rw (e, adjust_loop)
  loop-stop fuel a rest (tcp n) acc e h = rw (e, adjust_loop)
  loop-stop fuel a rest (p2p n) acc e h = cc
  loop-stop fuel a rest (other_protocol n) acc e h = cc

  loop-skip :
      (fuel : ℕ) (a rest : Multiaddr) (p : Protocol) (acc : List Protocol)
      → M.pop a ≡ some (rest, p)
      → has_port p ≡ false
      → adjust_loop M self (suc fuel) a acc ≡ adjust_loop M self fuel rest (acc ++ p ∷ [])
  unfolding adjust_loop
  loop-skip fuel a rest (udp n) acc e h = cc
  loop-skip fuel a rest (tcp n) acc e h = cc
  loop-skip fuel a rest (p2p n) acc e h = rw (e, adjust_loop)
  loop-skip fuel a rest (other_protocol n) acc e h = rw (e, adjust_loop)

  -- The loop stops at the last protocol with a port, and has taken off what follows it.
  loop-port :
      (fuel : ℕ) (a : Multiaddr) (pre : List Protocol) (t : Protocol) (post acc : List Protocol)
      → view a ≡ followed_by (pre ++ t ∷ []) post
      → has_port t ≡ true
      → All (λ p. has_port p ≡ false) post
      → length post < fuel
      → (rest : Multiaddr) × (view rest ≡ pre)
        × (adjust_loop M self fuel a acc ≡ some (rest, acc ++ (post ++ adjusted self t ∷ [])))
  loop-port zero a pre t post acc v h hs f = absurd (omega arith)
  loop-port (suc fuel) a pre t [] acc v h hs f =
      let (rest, popped, left) = lawful.pop-snoc a pre t v in
      (rest, left, loop-stop fuel a rest t acc popped h)
  loop-port (suc fuel) a pre t (p ∷ post) acc v h hs f =
      let (next, popped, left) = lawful.pop-snoc a (followed_by (pre ++ t ∷ []) post) p v in
      let (rest, same, done) =
        loop-port fuel next pre t post (acc ++ p ∷ []) left h hs.1 (omega arith) in
      (
        rest,
        same,
        loop-skip fuel a next p acc popped hs.0
            ∙ done
            ∙ ap (λ l. some (rest, l)) (append_assoc acc (p ∷ []) (post ++ adjusted self t ∷ [])),
      )

  -- With no port in the address the loop takes it all off.
  loop-none :
      (fuel : ℕ) (a : Multiaddr) (post acc : List Protocol)
      → view a ≡ followed_by [] post
      → All (λ p. has_port p ≡ false) post
      → length post < fuel
      → (rest : Multiaddr) × (view rest ≡ [])
        × (adjust_loop M self fuel a acc ≡ some (rest, acc ++ post))
  unfolding adjust_loop
  loop-none zero a post acc v hs f = absurd (omega arith)
  loop-none (suc fuel) a [] acc v hs f =
      (a, v, rw (lawful.pop-nil a v, adjust_loop) (rw (append-nil acc)))
  loop-none (suc fuel) a (p ∷ post) acc v hs f =
      let (next, popped, left) = lawful.pop-snoc a (followed_by [] post) p v in
      let (rest, same, done) = loop-none fuel next post (acc ++ p ∷ []) left hs.1 (omega arith) in
      (
        rest,
        same,
        loop-skip fuel a next p acc popped hs.0
            ∙ done
            ∙ ap (λ l. some (rest, l)) (append_assoc acc (p ∷ []) post),
      )

  last_protocol :
      (ps : List Protocol)
      → (ps ≡ []) ⊎ ((init : List Protocol) × (t : Protocol) × (ps ≡ init ++ t ∷ []))
  last_protocol [] = inl refl
  last_protocol (p ∷ ps) = elim (last_protocol ps) [
    | inl e ↦ inr ([], p, ap (λ l. p ∷ l) e)
    | inr (init, t, e) ↦ inr (p ∷ init, t, ap (λ l. p ∷ l) e)
  ]

  adjust_loop-ends :
      (fuel : ℕ) (a : Multiaddr) (acc : List Protocol)
      → length (view a) < fuel
      → (r : Multiaddr × List Protocol) × (adjust_loop M self fuel a acc ≡ some r)
  unfolding adjust_loop
  adjust_loop-ends zero a acc f = absurd (omega arith)
  adjust_loop-ends (suc fuel) a acc f = elim (last_protocol (view a)) [
    | inl e ↦ ((a, acc), rw (lawful.pop-nil a e, adjust_loop))
    | inr (init, t, e) ↦
        let (rest, popped, left) = lawful.pop-snoc a init t e in
        elim (Bool-cases (has_port t)) [
          | inl port ↦ (_, loop-stop fuel a rest t acc popped port)
          | inr other ↦
              let (r, done) =
                adjust_loop-ends fuel rest (acc ++ t ∷ [])
                  (omega (arith, f, ap length e, ap length left, length-append init (t ∷ []))) in
              (r, loop-skip fuel a rest t acc popped other ∙ done)
        ]
  ]

  -- With more fuel than the address has protocols the function ends.
  pub adjust_multiaddr-ends :
      (fuel : ℕ) (a : Multiaddr)
      → length (view a) < fuel
      → (b : Multiaddr) × (adjust_multiaddr M self fuel a ≡ some b)
  unfolding adjust_multiaddr
  adjust_multiaddr-ends fuel a f =
      let (r, done) = adjust_loop-ends fuel a [] f in
      (push_all M self r.0 r.1, rw (done, adjust_multiaddr))

  -- Take an address whose last protocol with a port is `t`, which the protocols of `post` follow,
  -- the last of them first. With more fuel than these the function ends; it adjusts the port of
  -- `t` and no other, and puts `t` at the end, behind `post` in the reverse of its order in the
  -- address.
  pub adjust_multiaddr_lem :
      (fuel : ℕ) (a : Multiaddr) (pre : List Protocol) (t : Protocol) (post : List Protocol)
      → view a ≡ followed_by (pre ++ t ∷ []) post
      → has_port t ≡ true
      → All (λ p. has_port p ≡ false) post
      → length post < fuel
      → (b : Multiaddr) × (adjust_multiaddr M self fuel a ≡ some b)
        × (view b ≡ pre ++ (post ++ adjusted self t ∷ []))
  unfolding adjust_multiaddr
  adjust_multiaddr_lem fuel a pre t post v h hs f =
      let (rest, same, done) = loop-port fuel a pre t post [] v h hs f in
      let l = post ++ adjusted self t ∷ [] in
      (
        push_all M self rest l,
        rw (done, adjust_multiaddr),
        view-push_all rest l ∙ ap (λ v. v ++ l) same,
      )

  -- An address without a port is reversed, if there is fuel for all its protocols and one round.
  adjust_multiaddr_none :
      (fuel : ℕ) (a : Multiaddr) (post : List Protocol)
      → view a ≡ followed_by [] post
      → All (λ p. has_port p ≡ false) post
      → length post < fuel
      → (b : Multiaddr) × (adjust_multiaddr M self fuel a ≡ some b) × (view b ≡ post)
  unfolding adjust_multiaddr
  adjust_multiaddr_none fuel a post v hs f =
      let (rest, same, done) = loop-none fuel a post [] v hs f in
      (
        push_all M self rest post,
        rw (done, adjust_multiaddr),
        view-push_all rest post ∙ ap (λ v. v ++ post) same,
      )

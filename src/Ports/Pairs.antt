-- ===== src/Ports/Pairs.antt =====
-- The enabled ports in pairs.
use xyz.Prelude.{
  ℕ, ◌+◌, ◌%◌, ◌≡◌, ◌≢◌, ◌∙◌, ◌⊎◌, refl, sym, ap, Bool, true, false, ◌==◌, if◌then◌else◌, some,
  List, [], ◌∷◌, length, All, Bool-cases, inl, inr, arith,
}
use xyz.Ports.{
  Ports, set_dst, in_mask, add_port, port_loop, finish, finish_loop, no_ports, is_none,
  initialize_ports,
}

-- The ports in the mask, in their order.
unfoldable pub enabled : ℕ → List ℕ → List ℕ
enabled portmask [] = []
enabled portmask (p ∷ ps) =
    let rest = enabled portmask ps in if in_mask portmask p then p ∷ rest else rest

add_all : List ℕ → Ports → Ports
add_all [] s = s
add_all (p ∷ ps) s = add_all ps (add_port s p)

unfoldable pub Distinct : List ℕ → Type 0
Distinct [] = Unit
Distinct (p ∷ ps) = All (λ q. q ≢ p) ps × Distinct ps

-- Each two ports forward to each other; a port alone forwards to itself.
pub Paired : (ℕ → ℕ) → List ℕ → Type 0
Paired dst [] = Unit
Paired dst (p ∷ []) = dst p ≡ p
Paired dst (p ∷ (q ∷ ps)) = (dst p ≡ q) × (dst q ≡ p) × Paired dst ps

loop_adds :
    (portmask : ℕ) (set_up : ℕ → Bool) (ps : List ℕ) (s : Ports)
    → ((p : ℕ) → set_up p ≡ true)
    → port_loop portmask set_up ps s ≡ some (add_all (enabled portmask ps) s)
unfolding port_loop enabled add_all
loop_adds portmask set_up [] s ok = refl
loop_adds portmask set_up (p ∷ ps) s ok = elim (Bool-cases (in_mask portmask p)) [
  | inl on ↦ rw (on, ok p) (loop_adds portmask set_up ps (add_port s p) ok)
  | inr off ↦ rw off (loop_adds portmask set_up ps s ok)
]

set_dst-same : (dst : ℕ → ℕ) (p v : ℕ) → set_dst dst p v p ≡ v
unfolding set_dst
set_dst-same dst p v = ground arith

set_dst-other : (dst : ℕ → ℕ) (p v q : ℕ) → p ≢ q → set_dst dst p v q ≡ dst q
unfolding set_dst
set_dst-other dst p v q h = ground arith

-- A pair of ports, from an even count.
two_added :
    (s : Ports) (p q : ℕ)
    → s.count % 2 ≡ 0
    → add_port (add_port s p) q ≡ record {
      dst = set_dst (set_dst s.dst q p) p q;
      last = p;
      count = s.count + 1 + 1;
      enabled_mask = (add_port (add_port s p) q).enabled_mask;
    }
unfolding add_port
two_added s p q even =
    let a : (s.count % 2 == 1) ≡ false = ground (arith, even) in
    let b : ((s.count + 1) % 2 == 1) ≡ true = ground (arith, even) in simp (a, b)

add_port-other :
    (s : Ports) (p q : ℕ)
    → p ≢ q
    → ((s.count % 2 ≡ 0) ⊎ (s.last ≢ q))
    → ((add_port s p).dst q ≡ s.dst q)
      × (((add_port s p).count % 2 ≡ 0) ⊎ ((add_port s p).last ≢ q))
unfolding add_port
add_port-other s p q apart h = elim (Bool-cases (s.count % 2 == 1)) [
  | inr even ↦ rw even (refl, inr apart)
  | inl odd ↦
      let far : s.last ≢ q = ground (arith, odd, h) in
      let next : (s.count + 1) % 2 ≡ 0 = ground (arith, odd) in
      rw odd (
        set_dst-other (set_dst s.dst p s.last) s.last p q far
            ∙ set_dst-other s.dst p s.last q apart,
        inl next,
      )
]

add_all-other :
    (ps : List ℕ) (s : Ports) (q : ℕ)
    → All (λ p. p ≢ q) ps
    → ((s.count % 2 ≡ 0) ⊎ (s.last ≢ q))
    → (add_all ps s).dst q ≡ s.dst q
unfolding add_all
add_all-other [] s q all h = refl
add_all-other (p ∷ ps) s q (apart, all) h =
    let (same, next) = add_port-other s p q apart h in
    add_all-other ps (add_port s p) q all next ∙ same

add_all-count : (ps : List ℕ) (s : Ports) → (add_all ps s).count ≡ s.count + length ps
unfolding add_all add_port
add_all-count [] s = omega arith
add_all-count (p ∷ ps) s = omega (arith, add_all-count ps (add_port s p))

add_all-Paired :
    (ps : List ℕ) (s : Ports)
    → Distinct ps
    → s.count % 2 ≡ 0
    → length ps % 2 ≡ 0
    → Paired (add_all ps s).dst ps
unfolding Paired Distinct add_all
add_all-Paired [] s apart even two = tt
add_all-Paired (p ∷ []) s apart even two = absurd (omega (arith, two))
add_all-Paired (p ∷ (q ∷ ps)) s ((q_not_p, p_out), (q_out, apart)) even two =
    let s2 = add_port (add_port s p) q in
    let step = two_added s p q even in
    let dst = ap (λ x. x.dst) step in
    let even2 : s2.count % 2 ≡ 0 = omega (arith, even, ap (λ x. x.count) step) in
    let p_not_q : p ≢ q = λ e. q_not_p (sym e) in
    let at_p =
      add_all-other ps s2 p p_out (inl even2)
      ∙ ap (λ d. d p) dst
      ∙ set_dst-same (set_dst s.dst q p) p q in
    let at_q =
      add_all-other ps s2 q q_out (inl even2)
      ∙ ap (λ d. d q) dst
      ∙ set_dst-other (set_dst s.dst q p) p q q p_not_q
      ∙ set_dst-same s.dst q p in
    (at_p, at_q, add_all-Paired ps s2 apart even2 (omega (arith, two)))

-- If every port can be set up, and an even number of distinct ports is in the mask: the set-up succeeds,
-- counts these ports, and each two of them, in their order, are the destination of each other.
pub initialize_ports-Paired :
    (portmask : ℕ) (set_up : ℕ → Bool) (p : ℕ) (ps : List ℕ)
    → ((q : ℕ) → set_up q ≡ true)
    → Distinct (enabled portmask (p ∷ ps))
    → length (enabled portmask (p ∷ ps)) % 2 ≡ 0
    → (s : Ports) × (initialize_ports portmask set_up (p ∷ ps) ≡ some s)
      × (s.count ≡ length (enabled portmask (p ∷ ps)))
      × Paired s.dst (enabled portmask (p ∷ ps))
unfolding initialize_ports is_none finish_loop finish no_ports
initialize_ports-Paired portmask set_up p ps ok apart even =
    let es = enabled portmask (p ∷ ps) in
    let s = add_all es no_ports in
    let n : s.count ≡ length es = add_all-count es no_ports ∙ omega arith in
    let not_one : (s.count == 1) ≡ false = ground (arith, n, even) in
    let not_odd : (s.count % 2 == 1) ≡ false = ground (arith, n, even) in
    (
      s,
      rw (loop_adds portmask set_up (p ∷ ps) no_ports ok, not_one, not_odd) refl,
      n,
      add_all-Paired es no_ports apart refl even,
    )

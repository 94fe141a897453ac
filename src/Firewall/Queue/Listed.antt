-- ===== src/Firewall/Queue/Listed.antt =====
-- The list of TCP queues that `tcp_tc_init` makes holds the queue of each TCP connection.
use xyz.Prelude.{
  ℕ, zero, suc, ◌+◌, ◌*◌, ◌%◌, ◌^◌, ◌≡◌, ◌∙◌, refl, sym, ap, subst, inl, inr, true, false, ◌==◌,
  Option, none, some, List, [], ◌∷◌, All, get_or, Bool-cases, leb, arith,
}
use mathlib.Core.List.{Memᴰ}
use mathlib.Core.List.Memᴰ
use xyz.Firewall.{Rule, Key, proto_match, qos_match, site_after, qos_loop}
use xyz.Firewall.Queue.{
  blank, rule_at, site_pipe, sched_at, qos_key, tcp_qos_queue, is_tcp_rule, tcp_tc_init,
}

number : Rule → ℕ
number r = r.site_num * 16 + r.tc_num

-- The table has an enabled rule of the site for the default traffic class.
abbrev pub DefaultRule : ℕ → List Rule → ℕ → Type 0
DefaultRule default_tc lut site =
    (r : Rule) × Memᴰ r lut
    × ((r.enbl == 0) ≡ false)
    × (r.site_num ≡ site)
    × (r.tc_num ≡ default_tc)

cons_listed :
    (default_tc : ℕ) (r : Rule) (rs : List Rule) (n : ℕ)
    → Memᴰ n (tcp_tc_init default_tc rs)
    → Memᴰ n (tcp_tc_init default_tc (r ∷ rs))
unfolding tcp_tc_init
cons_listed default_tc r rs n h = elim (Bool-cases (r.enbl == 0)) [
  | inl off ↦ rw off h
  | inr on ↦ elim (Bool-cases (is_tcp_rule default_tc r)) [
    | inl sel ↦ rw (on, sel) (Memᴰ.tail h)
    | inr unsel ↦ rw (on, unsel) h
  ]
]

head_listed :
    (default_tc : ℕ) (r : Rule) (rs : List Rule)
    → (r.enbl == 0) ≡ false
    → is_tcp_rule default_tc r ≡ true
    → Memᴰ (number r) (tcp_tc_init default_tc (r ∷ rs))
unfolding tcp_tc_init number
head_listed default_tc r rs on sel = rw (on, sel) (Memᴰ.head refl)

is_tcp_rule-default :
    (default_tc : ℕ) (r : Rule) → r.tc_num ≡ default_tc → is_tcp_rule default_tc r ≡ true
unfolding is_tcp_rule
is_tcp_rule-default default_tc r e = ground arith

is_tcp_rule-match :
    (default_tc : ℕ) (r : Rule) (k : Key)
    → k.proto_id ≡ 0x06
    → qos_match r k ≡ true
    → is_tcp_rule default_tc r ≡ true
unfolding is_tcp_rule qos_match proto_match
is_tcp_rule-match default_tc r k tcp e = ground arith

default_listed :
    (default_tc : ℕ) (lut : List Rule) (site : ℕ)
    → DefaultRule default_tc lut site
    → Memᴰ (site * 16 + default_tc) (tcp_tc_init default_tc lut)
unfolding number
default_listed default_tc [] site (r, h, on, e, f) = absurd (Memᴰ.not-nil h)
default_listed default_tc (r ∷ rs) site (s, h, on, e, f) = elim (Memᴰ.cases_cons h) [
  | inl same ↦
      let n : number r ≡ site * 16 + default_tc = ap number (sym same) ∙ omega (arith, e, f) in
      subst (λ x. Memᴰ x (tcp_tc_init default_tc (r ∷ rs))) n
        (head_listed default_tc r rs (ap (λ x. x.enbl == 0) (sym same) ∙ on)
          (is_tcp_rule-default default_tc r (ap (λ x. x.tc_num) (sym same) ∙ f)))
  | inr later ↦
      cons_listed default_tc r rs (site * 16 + default_tc)
        (default_listed default_tc rs site (s, later, on, e, f))
]

none-some : {A : Type 0} {a : A} → none ≡ some a → ⊥
none-some e = ground arith

-- The rule that the scan finds is enabled and one for TCP.
found_listed :
    (default_tc cnt : ℕ) (k : Key) (rs : List Rule) (i total j : ℕ) (site : Option ℕ)
    → k.proto_id ≡ 0x06
    → (qos_loop cnt k rs i total site).index ≡ some j
    → (p : ℕ) × (j ≡ i + p) × Memᴰ (number (get_or rs p blank)) (tcp_tc_init default_tc rs)
unfolding qos_loop
found_listed default_tc cnt k [] i total j site tcp h = absurd (none-some h)
found_listed default_tc cnt k (r ∷ rs) i total j site tcp h =
    let later : (t : ℕ) (s : Option ℕ)
        → (qos_loop cnt k rs (i + 1) t s).index ≡ some j
        → (p : ℕ) × (j ≡ i + p)
          × Memᴰ (number (get_or (r ∷ rs) p blank)) (tcp_tc_init default_tc (r ∷ rs)) =
      λ t s g.
        let (p, e, m) = found_listed default_tc cnt k rs (i + 1) t j s tcp g in
        (suc p, omega (arith, e), cons_listed default_tc r rs (number (get_or rs p blank)) m) in
    let total' = (total + 1) % 2 ^ 16 in
    let site' = site_after r k i site in
    elim (Bool-cases (r.enbl == 0)) [
      | inl off ↦ later total site (sym (rw off refl) ∙ h)
      | inr on ↦ elim (Bool-cases (qos_match r k)) [
        | inl hit ↦
            let e : some i ≡ some j = sym (rw (on, hit) refl) ∙ h in
            (
              0,
              ground (arith, e),
              head_listed default_tc r rs on (is_tcp_rule-match default_tc r k tcp hit),
            )
        | inr miss ↦ elim (Bool-cases (leb cnt total')) [
          | inl full ↦ absurd (none-some (sym (rw (on, miss, full) refl) ∙ h))
          | inr free ↦ later total' site' (sym (rw (on, miss, free) refl) ∙ h)
        ]
      ]
    ]

site_default :
    (default_tc : ℕ) (all lut : List Rule) (i : ℕ)
    → DefaultRule default_tc all 0
    → All (λ r. DefaultRule default_tc all r.site_num) lut
    → DefaultRule default_tc all (get_or lut i blank).site_num
unfolding blank
site_default default_tc all [] i z d = z
site_default default_tc all (r ∷ rs) zero z d = d.0
site_default default_tc all (r ∷ rs) (suc i) z d = site_default default_tc all rs i z d.1

pipe_default :
    (default_tc : ℕ) (lut : List Rule) (site : Option ℕ)
    → DefaultRule default_tc lut 0
    → All (λ r. DefaultRule default_tc lut r.site_num) lut
    → DefaultRule default_tc lut (site_pipe lut site)
unfolding site_pipe rule_at
pipe_default default_tc lut none z d = z
pipe_default default_tc lut (some i) z d = site_default default_tc lut lut i z d

sched_listed :
    (default_tc cnt : ℕ) (k : Key) (lut : List Rule) (index site : Option ℕ)
    → (qos_loop cnt k lut 0 0 none).index ≡ index
    → k.proto_id ≡ 0x06
    → DefaultRule default_tc lut 0
    → All (λ r. DefaultRule default_tc lut r.site_num) lut
    → (let s = sched_at lut default_tc index site in
        Memᴰ (s.pipe * 16 + s.traffic_class) (tcp_tc_init default_tc lut))
unfolding sched_at rule_at number
sched_listed default_tc cnt k lut none site e tcp z d =
    default_listed default_tc lut (site_pipe lut site) (pipe_default default_tc lut site z d)
sched_listed default_tc cnt k lut (some j) site e tcp z d =
    let (p, same, m) = found_listed default_tc cnt k lut 0 0 j none tcp e in
    let at : p ≡ j = omega (arith, same) in
    subst (λ x. Memᴰ (number (get_or lut x blank)) (tcp_tc_init default_tc lut)) at m

-- Where site 0 and the site of each rule have an enabled rule for the default traffic class, the
-- queue that `tcp_qos_queue` gives to a TCP connection (with 16 queues for each pipe) is in the list of
-- TCP queues that `tcp_tc_init` makes, found by a rule or not.
pub tcp_qos_queue-listed :
    (dscp sip dip sport dport : ℕ) (lut : List Rule) (cnt default_tc : ℕ)
    → DefaultRule default_tc lut 0
    → All (λ r. DefaultRule default_tc lut r.site_num) lut
    → (q : ℕ) × Memᴰ q (tcp_tc_init default_tc lut)
      × ((tcp_qos_queue dscp sip dip sport dport 0x06 lut cnt default_tc 16).0 ≡ q % 2 ^ 32)
unfolding tcp_qos_queue qos_key
tcp_qos_queue-listed dscp sip dip sport dport lut cnt default_tc z d =
    let k = qos_key dscp sip dip sport dport 0x06 in
    let found = qos_loop cnt k lut 0 0 none in
    let s = sched_at lut default_tc found.index found.site_index in
    (
      s.pipe * 16 + s.traffic_class,
      sched_listed default_tc cnt k lut found.index found.site_index refl refl z d,
      refl,
    )

-- ===== src/Firewall/Search.antt =====
-- What the scan of the rule table finds: the first enabled rule that matches.
use xyz.Prelude.{
  ℕ, zero, suc, ◌+◌, ◌%◌, ◌^◌, ◌<◌, ◌≡◌, refl, ◌∙◌, ◌⊎◌, inl, inr, Bool, false, ◌==◌, leb,
  if◌then◌else◌, Option, none, some, List, [], ◌∷◌, length, take, max, All, Bool-cases, arith,
}
use xyz.Firewall.{Rule, Key, Found, search_match, qos_match, site_after, search_loop, qos_loop}

-- The enabled rules with their numbers, from number i on.
pub enabled : List Rule → ℕ → List (ℕ × Rule)
enabled [] i = []
enabled (r ∷ rs) i = let rest = enabled rs (i + 1) in if r.enbl == 0 then rest else ((i, r) ∷ rest)

pub first_match : (Rule → Bool) → List (ℕ × Rule) → Option ℕ
first_match test [] = none
first_match test (p ∷ ps) = let rest = first_match test ps in if test p.1 then some p.0 else rest

-- The last rule whose addresses match, up to the first match.
pub last_site : (Rule → Bool) → Key → List (ℕ × Rule) → Option ℕ → Option ℕ
unfolding site_after
last_site test k [] site = site
last_site test k (p ∷ ps) site =
    let site' = site_after p.1 k p.0 site in
    let rest = last_site test k ps site' in if test p.1 then site' else rest

pub result : (Rule → Bool) → Key → List (ℕ × Rule) → Option ℕ → Found
unfolding first_match last_site
result test k ps site = record {
  index = first_match test ps;
  site_index = last_site test k ps site;
}

-- The loop of both functions, with its test as an argument.
pub scan : (Rule → Bool) → ℕ → Key → List Rule → ℕ → ℕ → Option ℕ → Found
unfolding site_after
scan test cnt k [] i total site = record { index = none; site_index = site }
scan test cnt k (r ∷ rs) i total site =
    let total' = (total + 1) % 2 ^ 16 in
    let site' = site_after r k i site in
    let skipped = scan test cnt k rs (i + 1) total site in
    let next = scan test cnt k rs (i + 1) total' site' in
    if r.enbl == 0
    then skipped
    else if test r
    then record { index = some i; site_index = site' }
    else if leb cnt total'
    then record { index = none; site_index = site' }
    else next

pub search_loop-scan :
    (cnt : ℕ) (k : Key) (rs : List Rule) (i total : ℕ) (site : Option ℕ)
    → search_loop cnt k rs i total site ≡ scan (λ r. search_match r k) cnt k rs i total site
unfolding search_loop scan
search_loop-scan cnt k [] i total site = refl
search_loop-scan cnt k (r ∷ rs) i total site = simp (
  search_loop-scan cnt k rs (i + 1) total site,
  search_loop-scan cnt k rs (i + 1) ((total + 1) % 2 ^ 16) (site_after r k i site),
)

pub qos_loop-scan :
    (cnt : ℕ) (k : Key) (rs : List Rule) (i total : ℕ) (site : Option ℕ)
    → qos_loop cnt k rs i total site ≡ scan (λ r. qos_match r k) cnt k rs i total site
unfolding qos_loop scan
qos_loop-scan cnt k [] i total site = refl
qos_loop-scan cnt k (r ∷ rs) i total site = simp (
  qos_loop-scan cnt k rs (i + 1) total site,
  qos_loop-scan cnt k rs (i + 1) ((total + 1) % 2 ^ 16) (site_after r k i site),
)

pub scan-agree :
    (test₁ test₂ : Rule → Bool) (cnt : ℕ) (k : Key) (rs : List Rule) (i total : ℕ) (site : Option ℕ)
    → All (λ r. test₁ r ≡ test₂ r) rs
    → scan test₁ cnt k rs i total site ≡ scan test₂ cnt k rs i total site
unfolding scan
scan-agree test₁ test₂ cnt k [] i total site all = refl
scan-agree test₁ test₂ cnt k (r ∷ rs) i total site all = simp (
  all.0,
  scan-agree test₁ test₂ cnt k rs (i + 1) total site all.1,
  scan-agree test₁ test₂ cnt k rs (i + 1) ((total + 1) % 2 ^ 16) (site_after r k i site) all.1,
)

suc_cases : (n : ℕ) → (n ≡ 0) ⊎ ((p : ℕ) × (n ≡ suc p))
suc_cases zero = inl refl
suc_cases (suc n) = inr (n, refl)

module _ (test : Rule → Bool) (cnt : ℕ) (k : Key) where
  scan_step :
      (rs : List Rule) (i total n : ℕ) (site : Option ℕ)
      → total + length rs < 2 ^ 16
      → total + suc n ≡ max 1 cnt
      → scan test cnt k rs i total site ≡ result test k (take (suc n) (enabled rs i)) site
  unfolding scan result first_match last_site enabled
  scan_step [] i total n site fits room = refl
  scan_step (r ∷ rs) i total n site fits room =
      let wrap : (total + 1) % 2 ^ 16 ≡ total + 1 = omega arith in
      elim (Bool-cases (r.enbl == 0)) [
        | inl off ↦ simp (off, scan_step rs (i + 1) total n site (omega arith) room)
        | inr on ↦ elim (Bool-cases (test r)) [
          | inl hit ↦ simp (on, hit)
          | inr miss ↦ elim (Bool-cases (leb cnt ((total + 1) % 2 ^ 16))) [
            | inl full ↦ let none_left : n ≡ 0 = ground arith in simp (on, miss, full, none_left)
            | inr free ↦
                let free' : leb cnt (total + 1) ≡ false = ground arith in
                elim (suc_cases n) [
                  | inl none_left ↦ absurd (ground arith)
                  | inr (p, e) ↦
                      let below =
                        scan_step rs (i + 1) (total + 1) p (site_after r k i site) (omega arith)
                          (omega arith) in
                      simp (on, miss, wrap, free', e, below)
                ]
          ]
        ]
      ]

  scan-result :
      (rs : List Rule)
      → length rs < 2 ^ 16
      → scan test cnt k rs 0 0 none ≡ result test k (take (max 1 cnt) (enabled rs 0)) none
  scan-result rs fits = elim (suc_cases (max 1 cnt)) [
    | inl nothing ↦ absurd (ground arith)
    | inr (p, e) ↦ rw e (scan_step rs 0 0 p none (omega arith) (omega arith))
  ]

-- Both searches find the first match among the enabled rules in reach (firewall_entries_cnt of them,
-- and one where that is 0), and the last rule up to it that has both addresses.
pub search_loop-result :
    (cnt : ℕ) (k : Key) (rs : List Rule)
    → length rs < 2 ^ 16
    → search_loop cnt k rs 0 0 none
      ≡ result (λ r. search_match r k) k (take (max 1 cnt) (enabled rs 0)) none
search_loop-result cnt k rs fits =
    search_loop-scan cnt k rs 0 0 none ∙ scan-result (λ r. search_match r k) cnt k rs fits

pub qos_loop-result :
    (cnt : ℕ) (k : Key) (rs : List Rule)
    → length rs < 2 ^ 16
    → qos_loop cnt k rs 0 0 none
      ≡ result (λ r. qos_match r k) k (take (max 1 cnt) (enabled rs 0)) none
qos_loop-result cnt k rs fits =
    qos_loop-scan cnt k rs 0 0 none ∙ scan-result (λ r. qos_match r k) cnt k rs fits

-- ===== src/Sites.antt =====
-- `find_tunnel_ip`, `inner_ip_is_fragment` and `is_rtp_hdr` of `app_thread (1).c`: to which site an
-- address belongs, and what a header says of its packet. The structures are declared in headers that
-- are not in the repository; their fields are those that the functions read.
mod Tests
use xyz.Prelude.{
  ℕ, ◌+◌, ◌-◌, ◌*◌, ◌/◌, ◌%◌, ◌^◌, ◌≤◌, ◌<◌, ◌≡◌, ◌⊎◌, inl, inr, refl, ap, sym, subst, Bool, true,
  false, not, ◌==◌, ◌&&◌, ◌||◌, leb, ltb, if◌then◌else◌, bit_and, List, [], ◌∷◌, ◌++◌, length, All,
  Bool-cases, arith,
}
use xyz.Memory.{Memory, word}

pub record Asl : Type 0 where
  ip : ℕ
  mask : ℕ

pub record Site : Type 0 where
  valid : ℕ
  number : ℕ
  local_asl : List Asl

pub asl_match : List Asl → ℕ → Bool
asl_match [] daddr = false
asl_match (a ∷ rest) daddr =
    let later = asl_match rest daddr in
    if bit_and a.ip a.mask == bit_and daddr a.mask then true else later

-- A valid site that is not the local one, with a range for the address.
pub site_match : ℕ → ℕ → Site → Bool
unfolding asl_match
site_match own daddr s = (s.valid == 1) && not (s.number == own) && asl_match s.local_asl daddr

find_loop : ℕ → ℕ → List Site → ℕ → ℕ
unfolding site_match
find_loop own daddr [] i = 0
find_loop own daddr (s ∷ rest) i =
    let later = find_loop own daddr rest (i + 1) in if site_match own daddr s then i else later

-- `own` is `site_number`.
pub find_tunnel_ip : ℕ → List Site → ℕ → ℕ
unfolding find_loop
find_tunnel_ip own sites daddr = find_loop own daddr sites 0

abbrev Misses : ℕ → ℕ → Site → Type 0
Misses own daddr s = site_match own daddr s ≡ false

-- The first site that matches, and 0 where none does.
pub IsFirst : ℕ → ℕ → List Site → ℕ → ℕ → Type 0
IsFirst own daddr sites i found =
    (All (Misses own daddr) sites × (found ≡ 0))
    ⊎ ((before : List Site) × (s : Site) × (after : List Site) × (sites ≡ before ++ (s ∷ after))
        × All (Misses own daddr) before
        × (site_match own daddr s ≡ true)
        × (found ≡ i + length before))

later-IsFirst :
    (own daddr : ℕ) (s : Site) (rest : List Site) (i found : ℕ)
    → Misses own daddr s
    → IsFirst own daddr rest (i + 1) found
    → IsFirst own daddr (s ∷ rest) i found
unfolding IsFirst
later-IsFirst own daddr s rest i found miss (inl (all, e)) = inl ((miss, all), e)
later-IsFirst own daddr s rest i found miss (inr (before, t, after, cut, all, hit, e)) =
    inr (s ∷ before, t, after, ap (λ l. s ∷ l) cut, (miss, all), hit, omega arith)

find_loop-IsFirst :
    (own daddr : ℕ) (sites : List Site) (i : ℕ)
    → IsFirst own daddr sites i (find_loop own daddr sites i)
unfolding find_loop IsFirst
find_loop-IsFirst own daddr [] i = inl (record {}, refl)
find_loop-IsFirst own daddr (s ∷ rest) i = elim (Bool-cases (site_match own daddr s)) [
  | inl hit ↦
      let here : find_loop own daddr (s ∷ rest) i ≡ i + 0 = simp hit (omega arith) in
      inr ([], s, rest, refl, record {}, hit, here)
  | inr miss ↦
      let later : find_loop own daddr (s ∷ rest) i ≡ find_loop own daddr rest (i + 1) = simp miss in
      subst (λ x. IsFirst own daddr (s ∷ rest) i x) (sym later)
        (later-IsFirst own daddr s rest i (find_loop own daddr rest (i + 1)) miss
          (find_loop-IsFirst own daddr rest (i + 1)))
]

-- The result of `find_tunnel_ip` is the number of the first valid, remote site with a range for the
-- address, and 0 where there is none.
pub find_tunnel_ip-IsFirst :
    (own : ℕ) (sites : List Site) (daddr : ℕ)
    → IsFirst own daddr sites 0 (find_tunnel_ip own sites daddr)
unfolding find_tunnel_ip
find_tunnel_ip-IsFirst own sites daddr = find_loop-IsFirst own daddr sites 0

-- `ip` is the offset of the header: the bit "more fragments", or an offset.
unfoldable pub inner_ip_is_fragment : Memory → ℕ → Bool
inner_ip_is_fragment m ip =
    let frag = word m (ip + 6) in not (frag / 2 ^ 13 % 2 == 0) || not (frag % 2 ^ 13 == 0)

pub record RtpHdr : Type 0 where
  pub version : ℕ
  pub pt : ℕ
  pub cc : ℕ

pub known_payload : ℕ → Bool
known_payload pt =
    (pt == 0x03)
    || (pt == 0x04)
    || (pt == 0x12)
    || (pt == 0x61)
    || (pt == 0x65)
    || (pt == 0x72)
    || (pt == 0x7d)

-- Ports and length in host order; `size` is sizeof(struct rtphdr1). `udp_payloadlen` is a `uint16_t`.
pub is_rtp_hdr : (sport dport len size : ℕ) → RtpHdr → Bool
unfolding known_payload
is_rtp_hdr sport dport len size rtp =
    if leb sport 1024 || leb dport 1024
    then false
    else if (sport == 5060) && (dport == 5060)
    then false
    else if not (dport % 2 == 0)
    then false
    else if ltb 200 len
    then false
    else if ltb ((len + 2 ^ 16 - 8) % 2 ^ 16) size
    then false
    else if not (rtp.version == 2)
    then false
    else if not (known_payload rtp.pt)
    then false
    else (rtp.cc == 0)

-- An accepted header has ports above 1024, an even destination port, a length of at most 200, version
-- 2 and no CSRC items; a length of at least 8 leaves room for the RTP header.
pub is_rtp_hdr-accepts :
    (sport dport len size : ℕ) (rtp : RtpHdr)
    → is_rtp_hdr sport dport len size rtp ≡ true
    → (1024 < sport)
      × (1024 < dport)
      × (dport % 2 ≡ 0)
      × (len ≤ 200)
      × (rtp.version ≡ 2)
      × (rtp.cc ≡ 0)
      × ((len < 8) ⊎ (size + 8 ≤ len))
unfolding is_rtp_hdr
is_rtp_hdr-accepts sport dport len size rtp h = ground arith

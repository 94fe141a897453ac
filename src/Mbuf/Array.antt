-- ===== src/Mbuf/Array.antt =====
-- A buffer of the interface: three byte strings, the room before the packet, the packet and the
-- room behind it. It shows that the laws of `MbufApi` can be met, and runs in the tests.
use xyz.Prelude.{
  ℕ, ◌+◌, ◌-◌, ◌≤◌, ◌<◌, ◌≡◌, refl, ap, zero, suc, List, [], ◌∷◌, ◌++◌, Option, none, some, length,
  take, drop, replicate, take-append, drop-append, length-append, length-take, length-drop,
  length-replicate, leb, if◌then◌else◌, arith,
}
use xyz.Mbuf.Splice.{splice}
use xyz.Mbuf.{MbufApi, Adjusted, Prepended, Appended, Trimmed}

pub record Packet : Type 0 where
  pub front : List ℕ
  pub bytes : List ℕ
  pub back : List ℕ

abbrev headroom : Packet → ℕ
headroom m = length m.front

abbrev tailroom : Packet → ℕ
tailroom m = length m.back

abbrev adj : Packet → ℕ → Option Packet
adj m n =
    if leb n (length m.bytes)
    then some (record m { front = m.front ++ take n m.bytes; bytes = drop n m.bytes })
    else none

abbrev prepend : Packet → ℕ → Option Packet
prepend m n =
    if leb n (length m.front)
    then some (record m {
      front = take (length m.front - n) m.front;
      bytes = drop (length m.front - n) m.front ++ m.bytes;
    })
    else none

abbrev append : Packet → ℕ → Option Packet
append m n =
    if leb n (length m.back)
    then some (record m { bytes = m.bytes ++ take n m.back; back = drop n m.back })
    else none

abbrev trim : Packet → ℕ → Option Packet
trim m n =
    if leb n (length m.bytes)
    then some (record m {
      bytes = take (length m.bytes - n) m.bytes;
      back = drop (length m.bytes - n) m.bytes ++ m.back;
    })
    else none

-- A read past the end finds zeros here.
abbrev load : Packet → ℕ → ℕ → List ℕ
load m off n = take n (drop off m.bytes ++ replicate n 0)

abbrev store : Packet → ℕ → List ℕ → Packet
store m off bs = record m { bytes = splice off bs m.bytes }

pub adj_some :
    (m : Packet) (n : ℕ)
    → n ≤ length m.bytes
    → Adjusted (λ p. p.bytes) headroom tailroom m n (adj m n)
adj_some m n h = record {
  after = record m { front = m.front ++ take n m.bytes; bytes = drop n m.bytes };
  returned = ground arith;
  bytes_left = refl;
  head = omega (arith, length-append m.front (take n m.bytes), length-take n m.bytes);
  tail = refl;
}

pub prepend_some :
    (m : Packet) (n : ℕ)
    → n ≤ headroom m
    → Prepended (λ p. p.bytes) headroom tailroom m n (prepend m n)
prepend_some m n h = record {
  after = record m {
    front = take (length m.front - n) m.front;
    bytes = drop (length m.front - n) m.front ++ m.bytes;
  };
  returned = ground arith;
  bytes_kept =
      drop-append n (drop (length m.front - n) m.front) m.bytes
        (omega (arith, length-drop (length m.front - n) m.front));
  size = omega (
    arith,
    length-append (drop (length m.front - n) m.front) m.bytes,
    length-drop (length m.front - n) m.front,
  );
  head = omega (arith, length-take (length m.front - n) m.front);
  tail = refl;
}

pub append_some :
    (m : Packet) (n : ℕ)
    → n ≤ tailroom m
    → Appended (λ p. p.bytes) headroom tailroom m n (append m n)
append_some m n h = record {
  after = record m { bytes = m.bytes ++ take n m.back; back = drop n m.back };
  returned = ground arith;
  bytes_kept = take-append (length m.bytes) m.bytes (take n m.back) refl;
  size = omega (arith, length-append m.bytes (take n m.back), length-take n m.back);
  head = refl;
  tail = omega (arith, length-drop n m.back);
}

pub trim_some :
    (m : Packet) (n : ℕ)
    → n ≤ length m.bytes
    → Trimmed (λ p. p.bytes) headroom tailroom m n (trim m n)
trim_some m n h = record {
  after = record m {
    bytes = take (length m.bytes - n) m.bytes;
    back = drop (length m.bytes - n) m.bytes ++ m.back;
  };
  returned = ground arith;
  bytes_left = refl;
  head = refl;
  tail = omega (
    arith,
    length-append (drop (length m.bytes - n) m.bytes) m.back,
    length-drop (length m.bytes - n) m.bytes,
  );
}

pub take-append_le : (n : ℕ) (xs ys : List ℕ) → n ≤ length xs → take n (xs ++ ys) ≡ take n xs
take-append_le zero xs ys h = refl
take-append_le (suc n) [] ys h = absurd (omega arith)
take-append_le (suc n) (x ∷ xs) ys h = ap (λ t. x ∷ t) (take-append_le n xs ys (omega arith))

pub length-load : (m : Packet) (off n : ℕ) → length (load m off n) ≡ n
length-load m off n = omega (
  arith,
  length-take n (drop off m.bytes ++ replicate n 0),
  length-append (drop off m.bytes) (replicate n 0),
  length-replicate {A = ℕ} n 0,
)

pub adj_none : (m : Packet) (n : ℕ) → length m.bytes < n → adj m n ≡ none
adj_none m n h = ground arith

pub prepend_none : (m : Packet) (n : ℕ) → length m.front < n → prepend m n ≡ none
prepend_none m n h = ground arith

pub append_none : (m : Packet) (n : ℕ) → length m.back < n → append m n ≡ none
append_none m n h = ground arith

pub trim_none : (m : Packet) (n : ℕ) → length m.bytes < n → trim m n ≡ none
trim_none m n h = ground arith

pub load-bytes :
    (m : Packet) (off n : ℕ) → off + n ≤ length m.bytes → load m off n ≡ take n (drop off m.bytes)
load-bytes m off n h =
    take-append_le n (drop off m.bytes) (replicate n 0) (omega (arith, length-drop off m.bytes))

abbrev pub packets : MbufApi
packets = record {
  Mbuf = Packet;
  bytes = λ p. p.bytes;
  headroom = headroom;
  tailroom = tailroom;
  adj = adj;
  prepend = prepend;
  append = append;
  trim = trim;
  load = load;
  store = store;
  adj_some = adj_some;
  adj_none = adj_none;
  prepend_some = prepend_some;
  prepend_none = prepend_none;
  append_some = append_some;
  append_none = append_none;
  trim_some = trim_some;
  trim_none = trim_none;
  bytes-store = λ m off bs h. refl;
  headroom-store = λ m off bs. refl;
  tailroom-store = λ m off bs. refl;
  load-bytes = load-bytes;
  length-load = length-load;
}

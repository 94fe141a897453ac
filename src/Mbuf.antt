-- ===== src/Mbuf.antt =====
-- The packet buffer that DPDK gives the program (`struct rte_mbuf` of one segment), as an
-- interface. DPDK is not part of the repository, so the type and the calls are parameters, with
-- the documented behaviour of each call as a law.
pub mod Splice
pub mod Array
use xyz.Prelude.{ℕ, ◌+◌, ◌-◌, ◌≤◌, ◌<◌, ◌≡◌, List, Option, none, some, length, take, drop}
use Splice.{splice}

-- What a call has done that succeeded: `after` is the buffer that it leaves.
pub record Adjusted {M : Type 0} (bytes : M → List ℕ) (headroom tailroom : M → ℕ) (m : M) (n : ℕ)
    (r : Option M) : Type 0 where
  pub after : M
  pub returned : r ≡ some after
  pub bytes_left : bytes after ≡ drop n (bytes m)
  pub head : headroom after ≡ headroom m + n
  pub tail : tailroom after ≡ tailroom m

pub record Prepended {M : Type 0} (bytes : M → List ℕ) (headroom tailroom : M → ℕ) (m : M) (n : ℕ)
    (r : Option M) : Type 0 where
  pub after : M
  pub returned : r ≡ some after
  pub bytes_kept : drop n (bytes after) ≡ bytes m
  pub size : length (bytes after) ≡ n + length (bytes m)
  pub head : headroom after + n ≡ headroom m
  pub tail : tailroom after ≡ tailroom m

pub record Appended {M : Type 0} (bytes : M → List ℕ) (headroom tailroom : M → ℕ) (m : M) (n : ℕ)
    (r : Option M) : Type 0 where
  pub after : M
  pub returned : r ≡ some after
  pub bytes_kept : take (length (bytes m)) (bytes after) ≡ bytes m
  pub size : length (bytes after) ≡ length (bytes m) + n
  pub head : headroom after ≡ headroom m
  pub tail : tailroom after + n ≡ tailroom m

pub record Trimmed {M : Type 0} (bytes : M → List ℕ) (headroom tailroom : M → ℕ) (m : M) (n : ℕ)
    (r : Option M) : Type 0 where
  pub after : M
  pub returned : r ≡ some after
  pub bytes_left : bytes after ≡ take (length (bytes m) - n) (bytes m)
  pub head : headroom after ≡ headroom m
  pub tail : tailroom after ≡ tailroom m + n

pub record MbufApi : Type 1 where
  pub Mbuf : Type 0
  -- the `data_len` bytes from `rte_pktmbuf_mtod` on, and the room before and behind them
  pub bytes : Mbuf → List ℕ
  pub headroom : Mbuf → ℕ
  pub tailroom : Mbuf → ℕ
  -- `rte_pktmbuf_adj`, `_prepend`, `_append`, `_trim`; `none` is the NULL or -1 that they return
  pub adj : Mbuf → ℕ → Option Mbuf
  pub prepend : Mbuf → ℕ → Option Mbuf
  pub append : Mbuf → ℕ → Option Mbuf
  pub trim : Mbuf → ℕ → Option Mbuf
  -- memory behind `mtod`: `load m off n` reads n bytes at mtod + off, `store m off bs` writes there
  pub load : Mbuf → ℕ → ℕ → List ℕ
  pub store : Mbuf → ℕ → List ℕ → Mbuf
  pub adj_some :
      (m : Mbuf) (n : ℕ) → n ≤ length (bytes m) → Adjusted bytes headroom tailroom m n (adj m n)
  pub adj_none : (m : Mbuf) (n : ℕ) → length (bytes m) < n → adj m n ≡ none
  pub prepend_some :
      (m : Mbuf) (n : ℕ) → n ≤ headroom m → Prepended bytes headroom tailroom m n (prepend m n)
  pub prepend_none : (m : Mbuf) (n : ℕ) → headroom m < n → prepend m n ≡ none
  pub append_some :
      (m : Mbuf) (n : ℕ) → n ≤ tailroom m → Appended bytes headroom tailroom m n (append m n)
  pub append_none : (m : Mbuf) (n : ℕ) → tailroom m < n → append m n ≡ none
  pub trim_some :
      (m : Mbuf) (n : ℕ) → n ≤ length (bytes m) → Trimmed bytes headroom tailroom m n (trim m n)
  pub trim_none : (m : Mbuf) (n : ℕ) → length (bytes m) < n → trim m n ≡ none
  pub bytes-store :
      (m : Mbuf) (off : ℕ) (bs : List ℕ)
      → off + length bs ≤ length (bytes m)
      → bytes (store m off bs) ≡ splice off bs (bytes m)
  pub headroom-store : (m : Mbuf) (off : ℕ) (bs : List ℕ) → headroom (store m off bs) ≡ headroom m
  pub tailroom-store : (m : Mbuf) (off : ℕ) (bs : List ℕ) → tailroom (store m off bs) ≡ tailroom m
  pub load-bytes :
      (m : Mbuf) (off n : ℕ)
      → off + n ≤ length (bytes m)
      → load m off n ≡ take n (drop off (bytes m))
  pub length-load : (m : Mbuf) (off n : ℕ) → length (load m off n) ≡ n

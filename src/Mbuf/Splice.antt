-- ===== src/Mbuf/Splice.antt =====
-- A write of bytes into the middle of a buffer: `memcpy(p + off, bs, n)` on the list of bytes.
use xyz.Prelude.{
  ℕ, ◌+◌, ◌≡◌, sym, ap, ◌∙◌, List, ◌++◌, length, take, drop, take-append, drop-append,
  length-append, arith,
}
use mathlib.Core.List.{append_assoc}

unfoldable pub splice : ℕ → List ℕ → List ℕ → List ℕ
splice off bs xs = take off xs ++ (bs ++ drop (off + length bs) xs)

-- The bytes at `off` are replaced by as many others.
pub splice_middle :
    (off : ℕ) (a b bs c xs : List ℕ)
    → xs ≡ a ++ (b ++ c)
    → length a ≡ off
    → length b ≡ length bs
    → splice off bs xs ≡ a ++ (bs ++ c)
unfolding splice
splice_middle off a b bs c xs e la lb =
    rw (e, take-append off a (b ++ c) la)
      (ap (λ t. a ++ (bs ++ t))
        (ap (drop (off + length bs)) (sym (append_assoc a b c))
          ∙ drop-append (off + length bs) (a ++ b) c (omega (arith, length-append a b))))

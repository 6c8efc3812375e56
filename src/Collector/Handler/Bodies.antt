-- ===== src/Collector/Handler/Bodies.antt =====
-- Which bodies the handler of internal/collector/handler.go reads, and which requests it takes.
use tracewell.Prelude.{
  ℕ, zero, suc, [], ◌∷◌, ◌+◌, ◌≤◌, true, false, List, none, some, ltb, leb, length, take, ◌≡◌, refl,
  ap, arith, if◌then◌else◌, inl, inr, Bool-cases, Option-cases,
}
use tracewell.Collector.Handler.{
  Stream, Body, refused, bytes_read, max_body_bytes, body_too_large, copy_limited, check_size,
  read_body,
}

-- What the limit means: a reader's bytes are all read, or it fails.
unfoldable pub whole : Stream → Body
whole s = elim s.failure [ none ↦ bytes_read s.bytes | some error ↦ refused error ]

length-take-short : {A : Type 0} (n : ℕ) (xs : List A) → n ≤ length xs → length (take n xs) ≡ n
length-take-short zero xs h = refl
length-take-short (suc n) [] h = absurd (omega arith)
length-take-short (suc n) (x ∷ xs) h = ap suc (length-take-short n xs (omega arith))

-- Reading at most one byte more than the limit and then testing the length is the test of the whole length:
-- a stream of more than 32 MiB is refused as too large, even where it fails later, and any other is read whole,
-- or is refused with its own error.
pub read_body_lem :
    (s : Stream)
    → read_body s
      ≡ (if ltb max_body_bytes (length s.bytes) then refused body_too_large else whole s)
unfolding read_body copy_limited check_size whole
read_body_lem s = elim (Bool-cases (ltb max_body_bytes (length s.bytes))) [
  | inl e ↦
      let fills : leb (max_body_bytes + 1) (length s.bytes) ≡ true = ground (arith, e) in
      let taken : length (take (max_body_bytes + 1) s.bytes) ≡ max_body_bytes + 1 =
        length-take-short (max_body_bytes + 1) s.bytes (ground (arith, e)) in
      let over : ltb max_body_bytes (length (take (max_body_bytes + 1) s.bytes)) ≡ true =
        ground (arith, taken) in
      rw (e, fills, over) refl
  | inr e ↦
      let ends : leb (max_body_bytes + 1) (length s.bytes) ≡ false = ground (arith, e) in
      rw (e, ends)
        (elim (Option-cases s.failure) [ inl f ↦ rw (f, e) refl | inr (error, f) ↦ rw f refl ])
]

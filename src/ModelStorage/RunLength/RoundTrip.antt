-- ===== src/ModelStorage/RunLength/RoundTrip.antt =====
-- Decoding after encoding.
use modyn.ModelStorage.RunLength.{encode_runs, encode_bytes, decode_runs, decode_bytes}
use modyn.Prelude.{
  ltb, ◌==◌, ==_iff, Bool-cases, length, replicate, All, ok, ℕ, zero, suc, ◌+◌, ◌%◌, ◌<◌, ◌≡◌, refl,
  ap, ◌∙◌, inl, inr, true, ◌&&◌, List, [], ◌∷◌, ◌++◌, arith,
}

replicate-snoc : (n a : ℕ) (xs : List ℕ) → replicate (n + 1) a ++ xs ≡ replicate n a ++ a ∷ xs
replicate-snoc zero a xs = refl
replicate-snoc (suc n) a xs =
    ap (λ k. replicate k a ++ xs) (suc_add n) ∙ ap (λ l. a ∷ l) (replicate-snoc n a xs)
  where
    suc_add : (k : ℕ) → suc k + 1 ≡ suc (k + 1)
    suc_add k = omega arith

runs :
    (curr count : ℕ) (buffer : List ℕ)
    → decode_runs (encode_runs curr count buffer) ≡ replicate count curr ++ buffer
unfolding encode_runs decode_runs
runs curr count [] = refl
runs curr count (byte ∷ buffer) = elim (Bool-cases ((byte == curr) && ltb count 255)) [
  | inl longer ↦
      let same : curr ≡ byte = ground arith in
      rw longer (
        runs curr (count + 1) buffer
        ∙ replicate-snoc count curr buffer
        ∙ ap (λ b. replicate count curr ++ b ∷ buffer) same)
  | inr next ↦ rw next (ap (λ l. replicate count curr ++ l) (runs byte 1 buffer))
]

-- Pairs of a count and a byte, both of which fit into a byte.
IsCoded : List ℕ → Type 0
IsCoded buffer = (length buffer % 2 ≡ 0) × All (λ b. b < 256) buffer

coded :
    (curr count : ℕ) (buffer : List ℕ)
    → curr < 256
    → count < 256
    → All (λ b. b < 256) buffer
    → IsCoded (encode_runs curr count buffer)
unfolding encode_runs IsCoded
coded curr count [] h k all_bytes = (refl, (k, (h, tt)))
coded curr count (byte ∷ buffer) h k (is_byte, all_bytes) =
    elim (Bool-cases ((byte == curr) && ltb count 255)) [
      | inl longer ↦
          let room : count + 1 < 256 = ground arith in
          rw longer (coded curr (count + 1) buffer h room all_bytes)
      | inr next ↦
          let (even, fits) = coded byte 1 buffer is_byte (omega arith) all_bytes in
          rw next (grind (arith, even), (k, (h, fits)))
    ]

-- The coding of bytes consists of bytes: no run is longer than 255, so `to_bytes(1)` never
-- overflows. It has an even length, so that `decode_bytes` accepts it, and decodes to the bytes that
-- were encoded.
pub decode-encode :
    (buffer : List ℕ)
    → All (λ b. b < 256) buffer
    → All (λ b. b < 256) (encode_bytes buffer) × (decode_bytes (encode_bytes buffer) ≡ ok buffer)
unfolding encode_bytes decode_bytes IsCoded
decode-encode [] all_bytes = (tt, refl)
decode-encode (byte ∷ buffer) all_bytes =
    let (even, fits) = coded byte 0 (byte ∷ buffer) all_bytes.0 (omega arith) all_bytes in
    let accepted : (length (encode_runs byte 0 (byte ∷ buffer)) % 2 == 0) ≡ true =
      (==_iff _ 0).1 even in
    (fits, rw accepted (ap ok (runs byte 0 (byte ∷ buffer))))

-- ===== src/ModelStorage/RunLength.antt =====
-- The run-length coding of WeightsDifference: `encode_bytes` and `decode_bytes`, on bytes as numbers.
pub mod RoundTrip
use modyn.Prelude.{
  ltb, ◌==◌, if◌then◌else◌, length, replicate, assertion_error, Result, ok, raise, ℕ, ◌+◌, ◌%◌,
  ◌&&◌, List, [], ◌∷◌, ◌++◌,
}

-- The loop of `encode_bytes`, and the last run that is written after it.
unfoldable pub encode_runs : ℕ → ℕ → List ℕ → List ℕ
encode_runs curr count [] = count ∷ curr ∷ []
encode_runs curr count (byte ∷ buffer) =
    let longer = encode_runs curr (count + 1) buffer in
    let next = encode_runs byte 1 buffer in
    if (byte == curr) && ltb count 255 then longer else count ∷ curr ∷ next

unfoldable pub encode_bytes : List ℕ → List ℕ
unfolding encode_runs
encode_bytes [] = []
encode_bytes (byte ∷ buffer) = encode_runs byte 0 (byte ∷ buffer)

-- The loop of `decode_bytes`.
unfoldable pub decode_runs : List ℕ → List ℕ
decode_runs (count ∷ byte ∷ buffer) = replicate count byte ++ decode_runs buffer
decode_runs buffer = []

unfoldable pub decode_bytes : List ℕ → Result (List ℕ)
unfolding decode_runs
decode_bytes buffer =
    if length buffer % 2 == 0 then ok (decode_runs buffer) else raise assertion_error

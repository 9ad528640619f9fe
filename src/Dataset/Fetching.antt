-- ===== src/Dataset/Fetching.antt =====
-- One partition of `OnlineDataset`: the container that `_get_data` fills from the storage's answers,
-- and the generators that read it. The key source and the storage are parameters: the keys and
-- weights that the one returns, and the answers of the other. Under the lock of a partition an
-- answer is added as a whole; what an answer leaves behind whose key is unknown is not modelled,
-- since `partition_valid_until` does not count it and no reader sees it.
pub mod Rows
use modyn.Prelude.{
  ltb, ◌==◌, if◌then◌else◌, length, get_elem?, replicate, assertion_error, key_error, index_error,
  Result, ok, raise, ◌>>=◌, ◌>>◌, guard, ℕ, zero, suc, ◌+◌, Option, none, some, List, [], ◌∷◌, ◌++◌,
}
use modyn.Prelude.Int.{ℤ, pos, negsuc}

-- One `GetResponse` of the storage.
pub record Answer {ℓ} (Sample : Type ℓ) : Type ℓ where
  pub keys : List ℕ
  pub samples : List Sample
  pub labels : List ℕ

-- `data_container`, with the field of the samples, "data", under another name.
pub record Container {ℓ κ} (Sample : Type ℓ) (Weight : Type κ) : Type (ℓ ⊔ κ) where
  pub keys : List ℕ
  pub samples : List Sample
  pub labels : List ℕ
  pub weights : List (Option Weight)

-- What the generators yield.
pub record Row {ℓ κ} (Sample : Type ℓ) (Weight : Type κ) : Type (ℓ ⊔ κ) where
  pub key : ℕ
  pub sample : Sample
  pub label : ℕ
  pub weight : Option Weight

module _ {κ} {Weight : Type κ} where
  -- `{key: weights[idx] for idx, key in enumerate(keys)}`, in the order of the insertions.
  unfoldable pub key_weight_map : List ℕ → List Weight → Result (List (ℕ × Weight))
  key_weight_map [] ws = ok []
  key_weight_map (k ∷ ks) [] = raise index_error
  key_weight_map (k ∷ ks) (w ∷ ws) = key_weight_map ks ws >>= λ m. ok ((k, w) ∷ m)

  -- A later entry of the same key wins.
  unfoldable pub later : Option Weight → ℕ → ℕ → Weight → Option Weight
  later (some w') k' k w = some w'
  later none k' k w = if k' == k then some w else none

  unfoldable pub weight_of : List (ℕ × Weight) → ℕ → Option Weight
  weight_of [] k = none
  weight_of ((k', w) ∷ m) k = later (weight_of m k) k' k w

  unfoldable pub found : Option Weight → Result (Option Weight)
  found none = raise key_error
  found (some w) = ok (some w)

  -- `[key_weight_map[key] for key in stor_keys]`
  unfoldable pub known_weights : List (ℕ × Weight) → List ℕ → Result (List (Option Weight))
  known_weights m [] = ok []
  known_weights m (k ∷ ks) = found (weight_of m k) >>= λ w. known_weights m ks >>= λ ws. ok (w ∷ ws)

  -- The weights of an answer's keys; a dataset without weights has `None` for each.
  unfoldable pub weights_of : Option (List (ℕ × Weight)) → List ℕ → Result (List (Option Weight))
  weights_of none ks = ok (replicate (length ks) none)
  weights_of (some m) ks = known_weights m ks

  unfoldable pub optional_map : List ℕ → Option (List Weight) → Result (Option (List (ℕ × Weight)))
  optional_map keys none = ok none
  optional_map keys (some ws) = key_weight_map keys ws >>= λ m. ok (some m)

module _ {ℓ κ} {Sample : Type ℓ} {Weight : Type κ} where
  unfoldable pub empty_container : Container Sample Weight
  empty_container = record { keys = []; samples = []; labels = []; weights = [] }

  unfoldable pub add :
      Container Sample Weight → Answer Sample → List (Option Weight) → Container Sample Weight
  add c a ws = record {
    keys = c.keys ++ a.keys;
    samples = c.samples ++ a.samples;
    labels = c.labels ++ a.labels;
    weights = c.weights ++ ws;
  }

  -- The body of the loop of `_get_data`, for one answer.
  unfoldable pub extend :
      Option (List (ℕ × Weight))
      → Answer Sample
      → Container Sample Weight
      → Result (Container Sample Weight)
  extend m a c = weights_of m a.keys >>= λ ws. ok (record {
    keys = c.keys ++ a.keys;
    samples = c.samples ++ a.samples;
    labels = c.labels ++ a.labels;
    weights = c.weights ++ ws;
  })

  -- The whole loop, where no lock is taken.
  unfoldable pub extend_all :
      Option (List (ℕ × Weight))
      → List (Answer Sample)
      → Container Sample Weight
      → Result (Container Sample Weight)
  extend_all m [] c = ok c
  extend_all m (a ∷ answers) c = extend m a c >>= λ c'. extend_all m answers c'

  unfoldable pub row_of :
      Option ℕ → Option Sample → Option ℕ → Option (Option Weight) → Result (Row Sample Weight)
  row_of (some k) (some s) (some l) (some w) =
      ok (record { key = k; sample = s; label = l; weight = w })
  row_of none s l w = raise index_error
  row_of (some k) none l w = raise index_error
  row_of (some k) (some s) none w = raise index_error
  row_of (some k) (some s) (some l) none = raise index_error

  -- `container["keys"][idx], container["data"][idx], ...`
  unfoldable pub row_at : Container Sample Weight → ℕ → Result (Row Sample Weight)
  row_at c idx =
      row_of (get_elem? c.keys idx) (get_elem? c.samples idx) (get_elem? c.labels idx)
        (get_elem? c.weights idx)

  -- `count` rows from `idx`.
  unfoldable pub read_rows : Container Sample Weight → ℕ → ℕ → Result (List (Row Sample Weight))
  read_rows c idx zero = ok []
  read_rows c idx (suc count) =
      row_at c idx >>= λ row. read_rows c (suc idx) count >>= λ rows. ok (row ∷ rows)

  unfoldable pub fetch_partition_noprefetch :
      ℕ → List ℕ → Option (List Weight) → List (Answer Sample) → Result (List (Row Sample Weight))
  fetch_partition_noprefetch num_prefetched_partitions keys weights answers =
      guard (ltb num_prefetched_partitions 1) assertion_error
      >> (optional_map keys weights >>= λ m.
          extend_all m answers empty_container >>= λ c. read_rows c 0 (length c.keys))

-- `partition_valid_until[partition_id] += num_items`
unfoldable pub advance : ℤ → ℕ → ℤ
advance (pos n) num_items = pos (n + num_items)
advance (negsuc zero) zero = negsuc zero
advance (negsuc zero) (suc num_items) = pos num_items
advance (negsuc (suc n)) zero = negsuc (suc n)
advance (negsuc (suc n)) (suc num_items) = advance (negsuc n) num_items

-- ===== src/Examples/Fetching.antt =====
-- Concrete runs of one partition of the dataset that fetches partitions ahead.
use modyn.Dataset.Fetching.{
  Answer, Container, Row, key_weight_map, later, weight_of, found, known_weights, weights_of,
  optional_map, empty_container, add, extend, row_of, row_at, fetch_partition_noprefetch, advance,
}
use modyn.Dataset.Fetching.Rows.{IsAnswer}
use modyn.Dataset.Stream.{
  fetching, ended, yielding, finished, Stream, new_stream, receive, validate, end, poll, read,
  repeat, join, drain, clear, Reach, here, next,
}
use modyn.Dataset.Stream.Serving.{IsKnown, Reach-trans}
use modyn.Dataset.Stream.Invariant.{all_rows}
use modyn.Dataset.Stream.Delivery.{yielded-all_rows}
use modyn.Dataset.Stream.Completion.{Reach-Finishes}
use modyn.Dataset.Stream.Unprefetched.{fetch_partition_noprefetch-yielded}
use modyn.Prelude.{All, ok, ℕ, ◌≡◌, refl, false, Option, some, List, [], ◌∷◌, ◌++◌, arith}
use modyn.Prelude.Int.{pos, negsuc}

-- One answer with the key 7, which has the weight 2.
abbrev answer : Answer ℕ
answer = record { keys = 7 ∷ []; samples = 70 ∷ []; labels = 1 ∷ [] }

abbrev weight_map : Option (List (ℕ × ℕ))
weight_map = some ((7, 2) ∷ [])

abbrev row : Row ℕ ℕ
row = record { key = 7; sample = 70; label = 1; weight = some 2 }

abbrev filled : Container ℕ ℕ
filled = record { keys = 7 ∷ []; samples = 70 ∷ []; labels = 1 ∷ []; weights = some 2 ∷ [] }

-- The generator polls and reads before the answer is there, and finds the row when it drains.
abbrev halfway : Stream ℕ ℕ
halfway = record {
  container = filled;
  valid = false;
  valid_until = pos 0;
  fetcher = fetching [];
  reader = yielding 0 (negsuc 0);
  yielded = [];
}

abbrev at_end : Stream ℕ ℕ
at_end = record {
  container = empty_container;
  valid = false;
  valid_until = negsuc 0;
  fetcher = ended;
  reader = finished;
  yielded = row ∷ [];
}

extend-answer : extend weight_map answer empty_container ≡ ok filled
unfolding extend weights_of known_weights found weight_of later empty_container add
extend-answer = refl

row-filled : row_at filled 0 ≡ ok row
unfolding row_at row_of
row-filled = refl

to_halfway : Reach weight_map (new_stream (answer ∷ [])) halfway
unfolding new_stream advance
to_halfway =
    next (next (next here (poll _ (negsuc 0) refl)) (read _ (negsuc 0) refl))
      (receive _ answer [] filled refl extend-answer)

to_end : Reach weight_map halfway at_end
to_end =
    let repeated = next here (repeat _ 0 (negsuc 0) refl (omega arith)) in
    let fetched = next (next repeated (validate _ refl)) (end _ refl) in
    let joined = next (next fetched (poll _ (negsuc 0) refl)) (join _ (negsuc 0) refl refl) in
    next (next joined (drain _ 0 (pos 0) row refl (omega arith) row-filled))
      (clear _ 1 (pos 0) refl (omega arith))

answer-IsAnswer : All IsAnswer (answer ∷ [])
unfolding IsAnswer
answer-IsAnswer = ((refl, refl), tt)

answer-IsKnown : All (IsKnown weight_map) (answer ∷ [])
unfolding IsKnown weights_of known_weights found weight_of later
answer-IsKnown = ((some 2 ∷ [], refl), tt)

yielded-all_rows_example :
    (rest : List (Row ℕ ℕ)) × (at_end.yielded ++ rest ≡ all_rows weight_map (answer ∷ []))
    × (at_end.reader ≡ finished → rest ≡ [])
yielded-all_rows_example =
    yielded-all_rows weight_map (answer ∷ []) at_end answer-IsAnswer
      (Reach-trans weight_map (new_stream (answer ∷ [])) halfway at_end to_halfway to_end)

Reach-Finishes_example :
    (t : Stream ℕ ℕ) × Reach weight_map halfway t
    × (t.reader ≡ finished)
    × (t.yielded ≡ all_rows weight_map (answer ∷ []))
Reach-Finishes_example =
    Reach-Finishes weight_map (answer ∷ []) halfway answer-IsAnswer answer-IsKnown to_halfway

map_lem : optional_map (7 ∷ []) (some (2 ∷ [])) ≡ ok weight_map
unfolding optional_map key_weight_map
map_lem = refl

fetch_partition_noprefetch-yielded_example :
    fetch_partition_noprefetch 0 (7 ∷ []) (some (2 ∷ [])) (answer ∷ []) ≡ ok (row ∷ [])
fetch_partition_noprefetch-yielded_example =
    fetch_partition_noprefetch-yielded (7 ∷ []) (some (2 ∷ [])) weight_map (answer ∷ []) at_end
      map_lem answer-IsAnswer answer-IsKnown
      (Reach-trans weight_map (new_stream (answer ∷ [])) halfway at_end to_halfway to_end) refl

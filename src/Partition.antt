-- ===== src/Partition.antt =====
-- `get_partition_for_worker` of modyn/utils/utils.py: which part of `total_num_elements` elements a
-- worker gets. `int(a / b)` is the quotient of numbers below 2 ** 53, where the float is exact.
pub mod Cover
use modyn.Prelude.{
  ltb, leb, if◌then◌else◌, value_error, Result, ok, raise, ℕ, ◌+◌, ◌-◌, ◌*◌, ◌/◌, ◌%◌,
}
use modyn.Prelude.Int.{ℤ, pos, negsuc}

-- `worker_subset_size` after the branches.
unfoldable pub subset_size : ℕ → ℕ → ℕ → ℕ
subset_size worker_id total_workers total_num_elements =
    let subset = total_num_elements / total_workers in
    let threshold = total_num_elements % total_workers in
    if ltb 0 threshold then (if ltb worker_id threshold then subset + 1 else subset) else subset

-- `start_index` before the last test.
unfoldable pub offset : ℕ → ℕ → ℕ → ℕ
offset worker_id total_workers total_num_elements =
    let subset = total_num_elements / total_workers in
    let threshold = total_num_elements % total_workers in
    if ltb 0 threshold
    then (if ltb worker_id threshold
        then worker_id * (subset + 1)
        else threshold * (subset + 1) + (worker_id - threshold) * subset)
    else worker_id * subset

unfoldable pub start_index : ℕ → ℕ → ℕ → ℕ
start_index worker_id total_workers total_num_elements =
    let start = offset worker_id total_workers total_num_elements in
    if leb total_num_elements start then 0 else start

unfoldable pub get_partition_for_worker : ℤ → ℕ → ℕ → Result (ℕ × ℕ)
get_partition_for_worker (negsuc _) total_workers total_num_elements = raise value_error
get_partition_for_worker (pos worker_id) total_workers total_num_elements =
    if leb total_workers worker_id
    then raise value_error
    else ok (
      start_index worker_id total_workers total_num_elements,
      subset_size worker_id total_workers total_num_elements,
    )

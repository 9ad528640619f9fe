-- ===== src/Dataset/Stream.antt =====
-- A partition that is fetched ahead: the thread that runs `_get_data` and the generator
-- `prefetched_partition_generator`, whose steps interleave. What either does under the lock of the
-- partition is one step, and every yield is one. Between two tests of the loop the generator may wait
-- for the thread's signal, for a second at most: that changes nothing, and has no step.
pub mod Invariant
pub mod Thread
pub mod Generator
pub mod Delivery
pub mod Serving
pub mod Completion
pub mod Unprefetched
use modyn.Dataset.Fetching.{Answer, Container, Row, empty_container, extend, row_at, advance}
use modyn.Prelude.{
  if◌then◌else◌, length, Exception, ok, raise, ℕ, suc, ◌≤◌, ◌<◌, ◌≡◌, Bool, true, false, Option,
  List, [], ◌∷◌, ◌++◌,
}
use modyn.Prelude.Int.{ℤ, negsuc, after}

-- Where the thread stands: the answers that the storage has still to give; the partition is marked
-- valid, and the callback runs; the thread has ended; or an exception has ended it.
pub data Fetcher {ℓ} (Sample : Type ℓ) : Type ℓ where
  fetching : List (Answer Sample) → Fetcher Sample
  calling_back : Fetcher Sample
  ended : Fetcher Sample
  failed : Exception → List (Answer Sample) → Fetcher Sample

-- Where the generator stands, with its `last_idx`; in a range, with the next index and `max_idx`.
pub data Reader : Type 0 where
  polling : ℤ → Reader
  reading : ℤ → Reader
  yielding : ℕ → ℤ → Reader
  joining : ℤ → Reader
  draining : ℕ → ℤ → Reader
  finished : Reader

pub record Stream {ℓ κ} (Sample : Type ℓ) (Weight : Type κ) : Type (ℓ ⊔ κ) where
  pub container : Container Sample Weight
  pub valid : Bool
  pub valid_until : ℤ
  pub fetcher : Fetcher Sample
  pub reader : Reader
  pub yielded : List (Row Sample Weight)

module _ {ℓ κ} {Sample : Type ℓ} {Weight : Type κ} where
  -- The partition as `_prefetch_partition` makes it, and a generator that has just been made.
  unfoldable pub new_stream : List (Answer Sample) → Stream Sample Weight
  new_stream answers = record {
    container = empty_container;
    valid = false;
    valid_until = negsuc 0;
    fetcher = fetching answers;
    reader = polling (negsuc 0);
    yielded = [];
  }

  -- The first five are the thread's, the others the generator's.
  pub data Step (m : Option (List (ℕ × Weight)))
      : Stream Sample Weight → Stream Sample Weight → Type (ℓ ⊔ κ) where
    -- An answer is added to the container and counted.
    receive :
        (s : Stream Sample Weight) (a : Answer Sample) (rest : List (Answer Sample))
        (c : Container Sample Weight)
        → s.fetcher ≡ fetching (a ∷ rest)
        → extend m a s.container ≡ ok c
        → Step m s (record s {
          container = c;
          valid_until = advance s.valid_until (length a.keys);
          fetcher = fetching rest;
        })
    fail :
        (s : Stream Sample Weight) (a : Answer Sample) (rest : List (Answer Sample)) (e : Exception)
        → s.fetcher ≡ fetching (a ∷ rest)
        → extend m a s.container ≡ raise e
        → Step m s (record s { fetcher = failed e (a ∷ rest) })
    validate :
        (s : Stream Sample Weight)
        → s.fetcher ≡ fetching []
        → Step m s (record s { valid = true; fetcher = calling_back })
    end :
        (s : Stream Sample Weight)
        → s.fetcher ≡ calling_back
        → Step m s (record s { fetcher = ended })
    -- `while not self._is_partition_fetched(partition_id)`, both ways.
    poll :
        (s : Stream Sample Weight) (last_idx : ℤ)
        → s.reader ≡ polling last_idx
        → Step m s (record s { reader = (if s.valid then joining last_idx else reading last_idx) })
    -- `max_idx = self._partition_max_index(partition_id)`
    read :
        (s : Stream Sample Weight) (last_idx : ℤ)
        → s.reader ≡ reading last_idx
        → Step m s (record s { reader = yielding (after last_idx) s.valid_until })
    yield :
        (s : Stream Sample Weight) (idx : ℕ) (max_idx : ℤ) (row : Row Sample Weight)
        → s.reader ≡ yielding idx max_idx
        → idx < after max_idx
        → row_at s.container idx ≡ ok row
        → Step m s
            (record s { reader = yielding (suc idx) max_idx; yielded = s.yielded ++ row ∷ [] })
    -- `last_idx = max_idx`
    repeat :
        (s : Stream Sample Weight) (idx : ℕ) (max_idx : ℤ)
        → s.reader ≡ yielding idx max_idx
        → after max_idx ≤ idx
        → Step m s (record s { reader = polling max_idx })
    -- The thread is joined, and `max_idx` read again.
    join :
        (s : Stream Sample Weight) (last_idx : ℤ)
        → s.reader ≡ joining last_idx
        → s.fetcher ≡ ended
        → Step m s (record s { reader = draining (after last_idx) s.valid_until })
    drain :
        (s : Stream Sample Weight) (idx : ℕ) (max_idx : ℤ) (row : Row Sample Weight)
        → s.reader ≡ draining idx max_idx
        → idx < after max_idx
        → row_at s.container idx ≡ ok row
        → Step m s
            (record s { reader = draining (suc idx) max_idx; yielded = s.yielded ++ row ∷ [] })
    -- `_clear_partition`; an empty container stands for the deleted one.
    clear :
        (s : Stream Sample Weight) (idx : ℕ) (max_idx : ℤ)
        → s.reader ≡ draining idx max_idx
        → after max_idx ≤ idx
        → Step m s (record s {
          container = empty_container;
          valid = false;
          valid_until = negsuc 0;
          reader = finished;
        })

  pub data Reach (m : Option (List (ℕ × Weight))) (s : Stream Sample Weight)
      : Stream Sample Weight → Type (ℓ ⊔ κ) where
    here : Reach m s s
    next : {t u : Stream Sample Weight} → Reach m s t → Step m t u → Reach m s u

-- ===== src/Selector/Backend/Spread.antt =====
-- The processes of `_mt_persist_samples_impl` beside a single process.
use modyn.Selector.Engine.{SampleRow}
use modyn.Selector.Backend.{persist_samples_impl, end_index, processes}
use modyn.Prelude.{
  ltb, if◌then◌else◌, lt→ltb, length, take, slice, concat, length-take, take-all, take-append-until,
  concat-append, ℕ, zero, suc, ◌-◌, ◌*◌, ◌/◌, ◌≤◌, ◌<◌, ◌≡◌, refl, sym, ap, ◌∙◌, subst, List, [],
  ◌∷◌, ◌++◌, append-nil, arith, le_refl,
}

module _ (pipeline_id seen : ℕ) where
  impl-append :
      (keys timestamps labels keys' timestamps' labels' : List ℕ)
      → length keys ≡ length timestamps
      → length keys ≡ length labels
      → persist_samples_impl pipeline_id seen
          (keys ++ keys')
          (timestamps ++ timestamps')
          (labels ++ labels')
        ≡ persist_samples_impl pipeline_id seen keys timestamps labels
          ++ persist_samples_impl pipeline_id seen keys' timestamps' labels'
  unfolding persist_samples_impl
  impl-append [] [] [] keys' timestamps' labels' h k = refl
  impl-append [] [] (l ∷ ls) keys' timestamps' labels' h k = ground arith
  impl-append [] (t ∷ ts) ls keys' timestamps' labels' h k = ground arith
  impl-append (x ∷ xs) [] ls keys' timestamps' labels' h k = ground arith
  impl-append (x ∷ xs) (t ∷ ts) [] keys' timestamps' labels' h k = ground arith
  impl-append (x ∷ xs) (t ∷ ts) (l ∷ ls) keys' timestamps' labels' h k =
      ap (λ rows. first ∷ rows)
        (impl-append xs ts ls keys' timestamps' labels' (omega arith) (omega arith))
    where
      first : SampleRow
      first = record {
        pipeline_id = pipeline_id;
        sample_key = x;
        timestamp = t;
        label = l;
        seen_in_trigger_id = seen;
      }

  -- A process that would have no keys has no rows.
  started-concat :
      (earlier : List (List SampleRow)) (keys timestamps labels : List ℕ)
      → concat (
          if ltb 0 (length keys)
          then earlier ++ persist_samples_impl pipeline_id seen keys timestamps labels ∷ []
          else earlier)
        ≡ concat earlier ++ persist_samples_impl pipeline_id seen keys timestamps labels
  unfolding persist_samples_impl
  started-concat earlier [] timestamps labels = sym (append-nil (concat earlier))
  started-concat earlier (key ∷ keys) timestamps labels =
      rw (lt→ltb 0 (suc (length keys)) (omega arith)) (
        concat-append earlier
          (persist_samples_impl pipeline_id seen (key ∷ keys) timestamps labels ∷ [])
        ∙ ap (λ rows. concat earlier ++ rows) (append-nil _))

  module _ (threads : ℕ) (keys timestamps labels : List ℕ)
      (as_many : length keys ≡ length timestamps) (labelled : length keys ≡ length labels) where
    abbrev rows_until : ℕ → List SampleRow
    rows_until k =
        persist_samples_impl pipeline_id seen (take k keys) (take k timestamps) (take k labels)

    abbrev started : ℕ → List (List SampleRow)
    started k = processes pipeline_id seen threads keys timestamps labels k

    abbrev per : ℕ
    per = length keys / threads

    rows_between :
        (lo hi : ℕ)
        → lo ≤ hi
        → rows_until lo
            ++ persist_samples_impl pipeline_id seen
                (slice keys lo hi)
                (slice timestamps lo hi)
                (slice labels lo hi)
          ≡ rows_until hi
    rows_between lo hi h =
        sym (
          impl-append (take lo keys) (take lo timestamps) (take lo labels) (slice keys lo hi)
            (slice timestamps lo hi) (slice labels lo hi)
            (omega (arith, length-take lo keys, length-take lo timestamps, as_many))
            (omega (arith, length-take lo keys, length-take lo labels, labelled)))
        ∙ rw (
          take-append-until keys lo hi h,
          take-append-until timestamps lo hi h,
          take-append-until labels lo hi h,
        )

    processes-suc :
        (i : ℕ)
        → concat (started (suc i))
          ≡ concat (started i)
            ++ persist_samples_impl pipeline_id seen
                (slice keys (i * per) (end_index threads per (length keys) i))
                (slice timestamps (i * per) (end_index threads per (length keys) i))
                (slice labels (i * per) (end_index threads per (length keys) i))
    unfolding processes
    processes-suc i = started-concat (started i) _ _ _

    next_process :
        (i hi : ℕ)
        → concat (started i) ≡ rows_until (i * per)
        → end_index threads per (length keys) i ≡ hi
        → i * per ≤ hi
        → concat (started (suc i)) ≡ rows_until hi
    next_process i hi prefix ends within =
        processes-suc i
        ∙ subst
            (λ e.
              concat (started i)
                ++ persist_samples_impl pipeline_id seen (slice keys (i * per) e)
                    (slice timestamps (i * per) e) (slice labels (i * per) e)
              ≡ rows_until hi)
            (sym ends)
            (ap
                (λ rows.
                  rows
                  ++ persist_samples_impl pipeline_id seen (slice keys (i * per) hi)
                      (slice timestamps (i * per) hi) (slice labels (i * per) hi))
                prefix
              ∙ rows_between (i * per) hi within)

    processes-prefix : (i : ℕ) → i < threads → concat (started i) ≡ rows_until (i * per)
    unfolding processes end_index
    processes-prefix zero h = ap rows_until none_yet
      where
        none_yet : 0 ≡ 0 * per
        none_yet = omega arith
    processes-prefix (suc i) h =
        next_process i (suc i * per) (processes-prefix i (omega arith))
          (rw (lt→ltb i (threads - 1) (omega arith)) (omega arith)) (omega arith)

    -- When the three lists are equally long, the processes that `_mt_persist_samples_impl` starts
    -- insert together exactly the rows that one process would insert, in the same order from
    -- process to process, for any number of insertion threads above zero.
    pub processes-cover :
        0 < threads
        → concat (started threads) ≡ persist_samples_impl pipeline_id seen keys timestamps labels
    unfolding end_index
    processes-cover h =
        subst
          (λ k. concat (started k) ≡ persist_samples_impl pipeline_id seen keys timestamps labels)
          last_one
          (next_process (threads - 1) (length keys) (processes-prefix (threads - 1) (omega arith))
              ends within
            ∙ rw (
              take-all (length keys) keys (le_refl (length keys)),
              take-all (length keys) timestamps (omega (arith, as_many)),
              take-all (length keys) labels (omega (arith, labelled)),
            ))
      where
        last_one : suc (threads - 1) ≡ threads
        last_one = omega arith

        ends : end_index threads per (length keys) (threads - 1) ≡ length keys
        ends = ground arith

        within : (threads - 1) * per ≤ length keys
        within = grind arith

-- ===== src/SampleStorage/Saved.antt =====
-- What is read of a directory after samples have been saved in it.
use modyn.Prelude.Int.{negsuc}
use modyn.SampleStorage.{
  File, is_of_trigger, is_of_partition, is_same_name, put_file, write_files, files_of,
  save_trigger_samples, sort_files, get_matching_files, all_samples, get_all_samples,
  get_samples_in, get_trigger_samples,
}
use modyn.SampleStorage.Filters.{
  filter_by-keeps, filter_by-leaves, filter_by-filter_by, All-filter_by, All-mono,
}
use modyn.SampleStorage.Sorted.{
  name_leb-below, All-sort_files, insert_file-last, all_samples-append,
}
use modyn.Prelude.{
  ◌==◌, ==_iff, ==_refl, Bool-cases, length, take, drop, filter_by, All, sum, take-all,
  take-append-slice, ok, ℕ, suc, ◌+◌, ◌-◌, ◌≤◌, ◌<◌, ◌≡◌, refl, sym, ap, ◌∙◌, subst, ◌≢◌, inl, inr,
  Bool, true, false, not, ◌&&◌, some, List, [], ◌∷◌, ◌++◌, append-nil, append_assoc, arith,
}

pub and_unequal : {a c : ℕ} (b : Bool) → a ≢ c → (b && (a == c)) ≡ false
and_unequal {a} {c} true h = elim (Bool-cases (a == c)) [
  | inl e ↦ absurd (h ((==_iff a c).0 e))
  | inr e ↦ e
]
and_unequal false h = refl

pub and_equal : {a c : ℕ} (b : Bool) → (b && (a == c)) ≡ true → a ≡ c
and_equal {a} {c} true h = (==_iff a c).0 h
and_equal false h = cc h

module _ {ℓ} {Sample : Type ℓ} (p t q : ℕ) where
  -- The files of the partition come before one more.
  Below : ℕ → List (File Sample) → Type 0
  Below i files =
      All (λ g. g.index < i × (is_of_partition p t q g ≡ true))
        (filter_by (is_of_partition p t q) files)

  unfoldable pub file_at : ℕ → List Sample → File Sample
  file_at i samples = record {
    pipeline_id = p;
    trigger_id = t;
    partition_id = q;
    index = i;
    samples = samples;
  }

  pub is_of_partition-file_at :
      (i : ℕ) (xs : List Sample) → is_of_partition p t q (file_at i xs) ≡ true
  unfolding is_of_partition is_of_trigger file_at
  is_of_partition-file_at i xs = rw (==_refl p, ==_refl t, ==_refl q) refl

  other_index :
      (i : ℕ) (xs : List Sample) (g : File Sample)
      → g.index < i × (is_of_partition p t q g ≡ true)
      → not (is_same_name (file_at i xs) g) ≡ true
  unfolding is_same_name file_at
  other_index i xs g h = ap (λ b. not (b && (g.index == i))) h.1 ∙ ap not (lt_neq h.0)
    where
      lt_neq : {a b : ℕ} → a < b → (a == b) ≡ false
      lt_neq h = ground (arith, h)

  filter_by-put_file :
      (i : ℕ) (xs : List Sample) (files : List (File Sample))
      → Below i files
      → filter_by (is_of_partition p t q) (put_file (file_at i xs) files)
        ≡ file_at i xs ∷ filter_by (is_of_partition p t q) files
  unfolding put_file Below
  filter_by-put_file i xs files h =
      filter_by-keeps (is_of_partition p t q) (file_at i xs) _ (is_of_partition-file_at i xs)
      ∙ ap (λ l. file_at i xs ∷ l)
          (filter_by-filter_by (is_of_partition p t q) (λ g. not (is_same_name (file_at i xs) g))
            files (All-mono _ _ _ (other_index i xs) h))

  get_all_samples-put_file :
      (i : ℕ) (xs : List Sample) (files : List (File Sample))
      → i < 10
      → Below i files
      → get_all_samples p t q (put_file (file_at i xs) files) ≡ get_all_samples p t q files ++ xs
  unfolding get_all_samples get_matching_files sort_files Below file_at all_samples
  get_all_samples-put_file i xs files h b =
      ap (λ l. all_samples (sort_files l)) (filter_by-put_file i xs files b)
      ∙ ap all_samples (
          insert_file-last (file_at i xs) (sort_files (filter_by (is_of_partition p t q) files)) (
            All-mono (λ g. g.index < i × (is_of_partition p t q g ≡ true)) _ _
              (λ g k. name_leb-below i g.index h k.0) (All-sort_files _ _ b)))
      ∙ all_samples-append (sort_files (filter_by (is_of_partition p t q) files))
          (file_at i xs ∷ [])
      ∙ ap (λ l. get_all_samples p t q files ++ l) (append-nil xs)

  -- Writing goes through the lengths, from the index `i` on.
  write_files-Below :
      (i : ℕ) (xs : List Sample) (files : List (File Sample))
      → Below i files
      → Below (suc i) (put_file (file_at i xs) files)
  unfolding Below file_at
  write_files-Below i xs files b =
      subst (All (λ g. g.index < suc i × (is_of_partition p t q g ≡ true)))
        (sym (filter_by-put_file i xs files b))
        (
          (omega arith, is_of_partition-file_at i xs),
          All-mono (λ g. g.index < i × (is_of_partition p t q g ≡ true)) _ _
              (λ g k. (omega (arith, k.0), k.1)) b,
        )

  write_files_lem :
      (data_lengths : List ℕ) (i : ℕ) (xs : List Sample) (files : List (File Sample))
      → i + length data_lengths ≤ 10
      → Below i files
      → get_all_samples p t q (write_files p t q i xs data_lengths files)
        ≡ get_all_samples p t q files ++ take (sum data_lengths) xs
  unfolding write_files file_at
  write_files_lem [] i xs files h b = sym (append-nil (get_all_samples p t q files))
  write_files_lem (n ∷ ns) i xs files h b =
      write_files_lem ns (suc i) (drop n xs) (put_file (file_at i (take n xs)) files)
        (omega (arith, h)) (write_files-Below i (take n xs) files b)
      ∙ ap (λ l. l ++ take (sum ns) (drop n xs))
          (get_all_samples-put_file i (take n xs) files (omega (arith, h)) b)
      ∙ append_assoc (get_all_samples p t q files) (take n xs) (take (sum ns) (drop n xs))
      ∙ ap (λ l. get_all_samples p t q files ++ l)
          (ap (λ k. take n xs ++ take k (drop n xs)) (add_sub n (sum ns))
            ∙ take-append-slice xs n (sum ns))
    where
      add_sub : (a b : ℕ) → b ≡ a + b - a
      add_sub a b = omega arith

  fresh-Below :
      (files : List (File Sample)) → filter_by (is_of_partition p t q) files ≡ [] → Below 0 files
  unfolding Below
  fresh-Below files e = subst (All _) (sym e) tt

  -- The files of another partition of the trigger stay.
  put_file-other :
      (q' i : ℕ) (xs : List Sample) (files : List (File Sample))
      → q' ≢ q
      → filter_by (is_of_partition p t q') (put_file (file_at i xs) files)
        ≡ filter_by (is_of_partition p t q') files
  unfolding put_file file_at is_of_partition is_same_name
  put_file-other q' i xs files n =
      filter_by-leaves (is_of_partition p t q') (file_at i xs) _
        (and_unequal (is_of_trigger p t (file_at i xs)) (λ e. n (sym e)))
      ∙ filter_by-filter_by (is_of_partition p t q') (λ g. not (is_same_name (file_at i xs) g))
          files
          (All-filter_by (is_of_partition p t q') _ files (λ g e.
            ap (λ b. not (b && (g.index == i)))
              (and_unequal (is_of_trigger p t g)
                (λ k. n (sym (and_equal (is_of_trigger p t g) e) ∙ k)))))

  pub write_files-other :
      (q' : ℕ) (data_lengths : List ℕ) (i : ℕ) (xs : List Sample) (files : List (File Sample))
      → q' ≢ q
      → filter_by (is_of_partition p t q') (write_files p t q i xs data_lengths files)
        ≡ filter_by (is_of_partition p t q') files
  unfolding write_files file_at
  write_files-other q' [] i xs files n = refl
  write_files-other q' (l ∷ ls) i xs files n =
      write_files-other q' ls (suc i) (drop l xs) (put_file (file_at i (take l xs)) files) n
      ∙ put_file-other q' i (take l xs) files n

  unfoldable pub IsFresh : List (File Sample) → Type ℓ
  IsFresh files = filter_by (is_of_partition p t q) files ≡ []

  pub save-get_all_samples :
      (xs : List Sample) (data_lengths : List ℕ) (files : List (File Sample))
      → length data_lengths ≤ 10
      → sum data_lengths ≡ length xs
      → IsFresh files
      → get_all_samples p t q (write_files p t q 0 xs data_lengths files) ≡ xs
  unfolding IsFresh get_all_samples get_matching_files sort_files all_samples
  save-get_all_samples xs ls files h e f =
      write_files_lem ls 0 xs files (omega (arith, h)) (fresh-Below files f)
      ∙ ap (λ l. all_samples (sort_files l) ++ take (sum ls) xs) f
      ∙ take-all (sum ls) xs (omega (arith, e))

  pub save-other :
      (q' : ℕ) (xs : List Sample) (data_lengths : List ℕ) (files : List (File Sample))
      → q' ≢ q
      → get_all_samples p t q' (write_files p t q 0 xs data_lengths files)
        ≡ get_all_samples p t q' files
  unfolding get_all_samples get_matching_files
  save-other q' xs ls files n =
      ap (λ l. all_samples (sort_files l)) (write_files-other q' ls 0 xs files n)

  -- Samples that are saved for a partition without files, in at most ten files whose lengths add up
  -- to their number, are what a call for the whole partition gives, in the same order; what the
  -- trigger's other partitions give does not change.
  pub save-get_trigger_samples :
      (xs : List Sample) (data_lengths : List ℕ) (files : List (File Sample))
      → length data_lengths ≤ 10
      → sum data_lengths ≡ length xs
      → IsFresh files
      → (get_trigger_samples p t q
            (negsuc 0)
            (negsuc 0)
            (negsuc 0)
            (save_trigger_samples p t q xs data_lengths (some files))
          ≡ ok xs)
        × ((q' : ℕ)
            → q' ≢ q
            → get_trigger_samples p t q'
                (negsuc 0)
                (negsuc 0)
                (negsuc 0)
                (save_trigger_samples p t q xs data_lengths (some files))
              ≡ get_trigger_samples p t q' (negsuc 0) (negsuc 0) (negsuc 0) (some files))
  unfolding get_trigger_samples get_samples_in save_trigger_samples files_of
  save-get_trigger_samples xs ls files h e f =
      (ap ok (save-get_all_samples xs ls files h e f), λ q' n. ap ok (save-other q' xs ls files n))

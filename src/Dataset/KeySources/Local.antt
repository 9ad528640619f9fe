-- ===== src/Dataset/KeySources/Local.antt =====
-- What the workers of a local key source read of a partition that a writer has stored.
use modyn.SampleStorage.Saved.{and_unequal, and_equal, file_at, is_of_partition-file_at, IsFresh}
use modyn.SampleStorage.{File, is_of_partition, is_same_name, put_file, write_files, parse_file}
use modyn.Prelude.{
  ◌==◌, if◌then◌else◌, ==_refl, Bool-cases, length, take, drop, filter_by, sum, take-append-slice,
  ℕ, zero, suc, ◌+◌, ◌-◌, ◌≤◌, ◌<◌, ◌≡◌, refl, sym, ap, ◌∙◌, ◌≢◌, inl, inr, Bool, true, false, not,
  ◌&&◌, List, [], ◌∷◌, ◌++◌, arith,
}

module _ {ℓ} {Sample : Type ℓ} (p t q : ℕ) where
  -- The files of the workers from `i` on, `n` of them.
  unfoldable pub files_samples : List (File Sample) → ℕ → ℕ → List Sample
  files_samples files i zero = []
  files_samples files i (suc n) = parse_file p t q i files ++ files_samples files (suc i) n

  -- What a written file's head decides.
  parse_file-put_file :
      (i j : ℕ) (xs : List Sample) (files : List (File Sample)) (b : Bool)
      → (is_of_partition p t q (file_at p t q i xs) && (i == j)) ≡ b
      → parse_file p t q j (put_file (file_at p t q i xs) files) ≡ (
          if b
          then xs
          else parse_file p t q j
              (filter_by (λ g. not (is_same_name (file_at p t q i xs) g)) files))
  unfolding parse_file put_file file_at
  parse_file-put_file i j xs files b e =
      ap
        (λ b.
          if b
          then xs
          else parse_file p t q j
              (filter_by (λ g. not (is_same_name (file_at p t q i xs) g)) files))
        e

  parse_file-own :
      (i : ℕ) (xs : List Sample) (files : List (File Sample))
      → parse_file p t q i (put_file (file_at p t q i xs) files) ≡ xs
  parse_file-own i xs files =
      parse_file-put_file i i xs files true
        (ap (λ b. b && (i == i)) (is_of_partition-file_at p t q i xs) ∙ ==_refl i)

  named : ℕ → File Sample → Bool
  named j g = is_of_partition p t q g && (g.index == j)

  parse_file-filter_by :
      (j : ℕ) (r : File Sample → Bool) (files : List (File Sample))
      → ((g : File Sample) → named j g ≡ true → r g ≡ true)
      → parse_file p t q j (filter_by r files) ≡ parse_file p t q j files
  unfolding parse_file named
  parse_file-filter_by j r [] h = refl
  parse_file-filter_by j r (g ∷ gs) h = elim (Bool-cases (named j g)) [
    | inl e ↦
        ap (λ b. parse_file p t q j (if b then g ∷ filter_by r gs else filter_by r gs)) (h g e)
        ∙ ap (λ b. if b then g.samples else parse_file p t q j (filter_by r gs)) e
        ∙ sym (ap (λ b. if b then g.samples else parse_file p t q j gs) e)
    | inr e ↦
        skipped (r g) e
        ∙ parse_file-filter_by j r gs h
        ∙ sym (ap (λ b. if b then g.samples else parse_file p t q j gs) e)
  ]
    where
      skipped :
          (b : Bool)
          → (is_of_partition p t q g && (g.index == j)) ≡ false
          → parse_file p t q j (if b then g ∷ filter_by r gs else filter_by r gs)
            ≡ parse_file p t q j (filter_by r gs)
      skipped true e = ap (λ b. if b then g.samples else parse_file p t q j (filter_by r gs)) e
      skipped false e = refl

  parse_file-other :
      (i j : ℕ) (xs : List Sample) (files : List (File Sample))
      → i ≢ j
      → parse_file p t q j (put_file (file_at p t q i xs) files) ≡ parse_file p t q j files
  unfolding put_file file_at parse_file named is_same_name
  parse_file-other i j xs files n =
      parse_file-put_file i j xs files false
        (and_unequal (is_of_partition p t q (file_at p t q i xs)) n)
      ∙ parse_file-filter_by j (λ g. not (is_same_name (file_at p t q i xs) g)) files
          (λ g e. ap not (
            and_unequal (is_of_partition p t q g)
              (λ k. n (sym k ∙ and_equal (is_of_partition p t q g) e))))

  -- Writing from the index `i` on leaves the files before it.
  parse_file-write_files :
      (lengths : List ℕ) (i j : ℕ) (xs : List Sample) (files : List (File Sample))
      → j < i
      → parse_file p t q j (write_files p t q i xs lengths files) ≡ parse_file p t q j files
  unfolding write_files file_at
  parse_file-write_files [] i j xs files h = refl
  parse_file-write_files (n ∷ ns) i j xs files h =
      parse_file-write_files ns (suc i) j (drop n xs) (put_file (file_at p t q i (take n xs)) files)
        (omega (arith, h))
      ∙ parse_file-other i j (take n xs) files (λ e. omega (arith, h, e))

  nothing_more :
      (files : List (File Sample)) (i extra : ℕ)
      → ((j : ℕ) → i ≤ j → parse_file p t q j files ≡ [])
      → files_samples files i extra ≡ []
  unfolding files_samples
  nothing_more files i zero h = refl
  nothing_more files i (suc extra) h =
      ap (λ l. l ++ files_samples files (suc i) extra) (h i (omega arith))
      ∙ nothing_more files (suc i) extra (λ j k. h j (omega (arith, k)))

  -- The workers read the parts one after the other.
  pub files_samples-write_files :
      (sizes : List ℕ) (i extra : ℕ) (xs : List Sample) (files : List (File Sample))
      → ((j : ℕ) → i ≤ j → parse_file p t q j files ≡ [])
      → files_samples (write_files p t q i xs sizes files) i (length sizes + extra)
        ≡ take (sum sizes) xs
  unfolding files_samples write_files file_at
  files_samples-write_files [] i extra xs files h =
      ap (files_samples files i) (zero_add extra) ∙ nothing_more files i extra h
    where
      zero_add : (n : ℕ) → 0 + n ≡ n
      zero_add n = omega arith
  files_samples-write_files (n ∷ ns) i extra xs files h =
      let files' = put_file (file_at p t q i (take n xs)) files in
      let written = write_files p t q (suc i) (drop n xs) ns files' in
      ap (files_samples written i) (suc_add (length ns) extra)
      ∙ ap (λ l. l ++ files_samples written (suc i) (length ns + extra))
          (parse_file-write_files ns (suc i) i (drop n xs) files' (omega arith)
            ∙ parse_file-own i (take n xs) files)
      ∙ ap (λ l. take n xs ++ l)
          (files_samples-write_files ns (suc i) extra (drop n xs) files' (λ j k.
            parse_file-other i j (take n xs) files (λ e. omega (arith, k, e))
            ∙ h j (omega (arith, k))))
      ∙ ap (λ k. take n xs ++ take k (drop n xs)) (add_sub n (sum ns))
      ∙ take-append-slice xs n (sum ns)
    where
      suc_add : (a b : ℕ) → suc a + b ≡ suc (a + b)
      suc_add a b = omega arith

      add_sub : (a b : ℕ) → b ≡ a + b - a
      add_sub a b = omega arith

  pub fresh-parse_file :
      (files : List (File Sample)) → IsFresh p t q files → (j : ℕ) → parse_file p t q j files ≡ []
  unfolding IsFresh parse_file named
  fresh-parse_file files f j =
      sym (
        parse_file-filter_by j (is_of_partition p t q) files
          (λ g e. and_left (is_of_partition p t q g) (g.index == j) e))
      ∙ ap (parse_file p t q j) f
    where
      and_left : (b c : Bool) → (b && c) ≡ true → b ≡ true
      and_left true c e = refl
      and_left false c e = e

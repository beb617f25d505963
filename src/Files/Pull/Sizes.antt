-- ===== src/Files/Pull/Sizes.antt =====
-- What a pull (pull.rs, `pull_into`) leaves: the files and folders of the manifest, counted.
use geser_desk.Prelude.{
  append_assoc, append_nil, ℕ, suc, ◌+◌, not, List, [], ◌∷◌, ◌++◌, arith, ◌≡◌, refl, sym, subst, ap,
  ◌∙◌, ◌⊎◌, inl, inr, Bool-cases, length, keep, map, length-append,
}
use geser_desk.Files.{FilePath, FileEntry, FileManifest, total_bytes}
use geser_desk.Files.Pull.{
  PullError, io, World, Pulling, done, stopped, Plan, nothing_yet, pull_file, pull_entry,
  pull_entries, pull_into,
}
use geser_desk.Files.Pull.Loop.{IsMeasured, copy_total}

abbrev files_of : List FileEntry → List FileEntry
files_of es = keep (λ e. not e.dir) es

abbrev sizes : List FileEntry → List ℕ
sizes es = map (λ e. e.size) (files_of es)

abbrev lengths : List (FilePath × List ℕ) → List ℕ
lengths fs = map (λ f. length f.1) fs

abbrev sum : List ℕ → ℕ
sum [] = 0
sum (n ∷ ns) = n + sum ns

-- From one entry to another of a pull: what the entries in between have added.
record Pulled (g g' : Pulling) (added : List ℕ) : Type 0 where
  pub file_lengths : lengths g'.files ≡ lengths g.files ++ added
  pub bytes : g'.bytes_done ≡ g.bytes_done + sum added
  pub index : g'.file_index ≡ g.file_index + length added

length-map : {A : Type 0} (f : A → ℕ) (xs : List A) → length (map f xs) ≡ length xs
length-map f [] = refl
length-map f (x ∷ xs) = omega (arith, length-map f xs)

sum-append : (a b : List ℕ) → sum (a ++ b) ≡ sum a + sum b
sum-append [] b = omega arith
sum-append (n ∷ a) b = omega (arith, sum-append a b)

lengths-append :
    (fs : List (FilePath × List ℕ)) (f : FilePath × List ℕ)
    → lengths (fs ++ (f ∷ [])) ≡ lengths fs ++ (length f.1 ∷ [])
lengths-append [] f = refl
lengths-append (g ∷ fs) f = rw (lengths-append fs f)

Pulled-refl : (g : Pulling) → Pulled g g []
Pulled-refl g = record {
  file_lengths = sym (append_nil (lengths g.files));
  bytes = omega arith;
  index = omega arith;
}

Pulled-trans :
    (g g' g'' : Pulling) (a b : List ℕ) → Pulled g g' a → Pulled g' g'' b → Pulled g g'' (a ++ b)
Pulled-trans g g' g'' a b p q = record {
  file_lengths =
      q.file_lengths ∙ ap (λ l. l ++ b) p.file_lengths ∙ append_assoc (lengths g.files) a b;
  bytes = omega (arith, p.bytes, q.bytes, sum-append a b);
  index = omega (arith, p.index, q.index, length-append a b);
}

-- A file is pulled whole, or the pull stops.
pull_file_total :
    (w : World) (plan : Plan) (i : ℕ) (e : FileEntry) (path : FilePath) (g : Pulling)
    → IsMeasured w
    → ((g' : Pulling) × (pull_file w plan i e path g ≡ done g') × Pulled g g' (e.size ∷ []))
      ⊎ ((x : PullError) × (pull_file w plan i e path g ≡ stopped x))
unfolding pull_file
pull_file_total w plan i e path g measured = elim (Bool-cases (w.creates i)) [
  | inr f ↦ inr (io, rw f refl)
  | inl t ↦
      let fresh : Pulling = record g { offset = 0; written = [] } in
      elim (copy_total e.size w plan i e fresh (omega arith)) [
        | inr (x, s) ↦ inr (x, rw t rw s refl)
        | inl (g', c, full) ↦
            let exact : length g'.written ≡ e.size =
              omega (arith, full.reached, full.not_passed measured (omega arith), full.lengths) in
            elim (Bool-cases (w.flushes i)) [
              | inr f ↦ inr (io, rw t rw c rw f refl)
              | inl u ↦ inl (
                record g' {
                  file_index = g'.file_index + 1;
                  files = g'.files ++ ((path, g'.written) ∷ []);
                },
                rw t rw c rw u refl,
                record {
                  file_lengths =
                      lengths-append g'.files (path, g'.written) ∙ rw full.same_files rw exact refl;
                  bytes =
                      omega
                        (arith, full.counts, full.reached, full.not_passed measured (omega arith));
                  index = omega (arith, full.same_index);
                },
              )
            ]
      ]
]

pull_entry_total :
    (w : World) (plan : Plan) (i : ℕ) (e : FileEntry) (path : FilePath) (g : Pulling)
    → IsMeasured w
    → ((g' : Pulling) × (pull_entry w plan i e path g ≡ done g') × Pulled g g' (sizes (e ∷ [])))
      ⊎ ((x : PullError) × (pull_entry w plan i e path g ≡ stopped x))
unfolding pull_entry keep
pull_entry_total w plan i e path g measured = elim (Bool-cases (w.cancelled_before i)) [
  | inl t ↦ inr (PullError.cancelled, rw t refl)
  | inr f ↦ elim (Bool-cases e.dir) [
    | inr file ↦ elim (pull_file_total w plan i e path g measured) [
      | inl (g', d, p) ↦ inl (g', rw f simp file d, simp file p)
      | inr (x, s) ↦ inr (x, rw f simp file s)
    ]
    | inl dir ↦ elim (Bool-cases (w.creates i)) [
      | inl t ↦
          let g' : Pulling = record g { folders = g.folders ++ (path ∷ []) } in
          inl (
            g',
            rw f rw dir rw t refl,
            rw dir record {
              file_lengths = sym (append_nil (lengths g.files));
              bytes = omega arith;
              index = omega arith;
            },
          )
      | inr f' ↦ inr (io, rw f rw dir rw f' refl)
    ]
  ]
]

sizes-cons : (e : FileEntry) (es : List FileEntry) → sizes (e ∷ es) ≡ sizes (e ∷ []) ++ sizes es
unfolding keep
sizes-cons e es = elim (Bool-cases e.dir) [ inl t ↦ rw t refl | inr f ↦ rw f refl ]

pull_entries_total :
    (w : World) (plan : Plan) (i : ℕ) (es : List FileEntry) (paths : List FilePath) (g : Pulling)
    → IsMeasured w
    → length es ≡ length paths
    → ((g' : Pulling) × (pull_entries w plan i es paths g ≡ done g') × Pulled g g' (sizes es))
      ⊎ ((x : PullError) × (pull_entries w plan i es paths g ≡ stopped x))
unfolding pull_entries keep
pull_entries_total w plan i [] paths g measured same = inl (g, refl, Pulled-refl g)
pull_entries_total w plan i (e ∷ es) [] g measured same = ground (arith, same)
pull_entries_total w plan i (e ∷ es) (p ∷ ps) g measured same =
    elim (pull_entry_total w plan i e p g measured) [
      | inr (x, s) ↦ inr (x, rw s refl)
      | inl (g', d, one) ↦
          elim (pull_entries_total w plan (suc i) es ps g' measured (omega (arith, same))) [
            | inr (x, s) ↦ inr (x, rw d s)
            | inl (g'', d', rest) ↦ inl (
              g'',
              rw d d',
              subst (Pulled g g'') (sym (sizes-cons e es))
                  (Pulled-trans g g' g'' (sizes (e ∷ [])) (sizes es) one rest),
            )
          ]
    ]

-- A pull ends. It stops with an error, or it has written every file of the manifest: each with as many bytes
-- as its entry announces, in the entries' order, each byte and each file counted once. No answer is longer
-- than what was asked for, and every entry has a path.
pub pull_into_total :
    (w : World) (seq : ℕ) (m : FileManifest) (resolved : List FilePath)
    → IsMeasured w
    → length m.entries ≡ length resolved
    → ((g : Pulling) × (pull_into w seq m resolved ≡ done g)
        × (lengths g.files ≡ sizes m.entries)
        × (g.bytes_done ≡ sum (sizes m.entries))
        × (g.file_index ≡ length (files_of m.entries)))
      ⊎ ((x : PullError) × (pull_into w seq m resolved ≡ stopped x))
unfolding pull_into
pull_into_total w seq m resolved measured same =
    let plan : Plan = record {
      seq = seq;
      file_count = length (keep (λ e. not e.dir) m.entries);
      bytes_total = total_bytes m;
    } in
    elim (pull_entries_total w plan 0 m.entries resolved nothing_yet measured same) [
      | inl (g, d, p) ↦ inl (
        g,
        d,
        p.file_lengths,
        omega (arith, p.bytes),
        omega (arith, p.index, length-map (λ e. e.size) (files_of m.entries)),
      )
      | inr (x, s) ↦ inr (x, s)
    ]

-- ===== src/Files/Pull/Exact/Copies.antt =====
-- A whole copy: files.rs, `FileOwner` on the machine that has the files, and pull.rs on the one that pastes them.
use geser_desk.Prelude.{
  append_assoc, append_nil, ℕ, suc, ◌+◌, true, false, not, List, [], ◌∷◌, ◌++◌, some, arith, ◌≡◌,
  refl, sym, subst, ap, ◌∙◌, inl, inr, Bool-cases, length, keep, ◌==◌, if◌then◌else◌, get_elem?,
}
use geser_desk.Message.{FileReadResult}
use geser_desk.Files.{FilePath, FileEntry, FileManifest, total_bytes}
use geser_desk.Files.Owner
use geser_desk.Files.Owner.{Disk, FileOwner, Current, read_entry}
use geser_desk.Files.Pull.{
  Pulling, done, Plan, nothing_yet, pull_file, pull_entry, pull_entries, pull_into,
}
use geser_desk.Files.Pull.Exact.{calm, OnDisk, read_at-OnDisk, Answers, copy_exact}

-- What a copy leaves: the bytes of each file at its place, and the folders.
abbrev pub files_at : List FileEntry → List FilePath → List (List ℕ) → List (FilePath × List ℕ)
files_at [] ps bss = []
files_at (e ∷ es) [] bss = []
files_at (e ∷ es) (p ∷ ps) [] = []
files_at (e ∷ es) (p ∷ ps) (bs ∷ bss) =
    let rest = files_at es ps bss in if e.dir then rest else (p, bs) ∷ rest

abbrev pub folders_at : List FileEntry → List FilePath → List FilePath
folders_at [] ps = []
folders_at (e ∷ es) [] = []
folders_at (e ∷ es) (p ∷ ps) = let rest = folders_at es ps in if e.dir then p ∷ rest else rest

-- Every file of a copy is on the owner's disk.
abbrev pub AllOnDisk : Disk → List FilePath → List FileEntry → List (List ℕ) → Type 0
AllOnDisk disk paths [] bss = bss ≡ []
AllOnDisk disk [] (e ∷ es) bss = ⊥
AllOnDisk disk (p ∷ ps) (e ∷ es) [] = ⊥
AllOnDisk disk (p ∷ ps) (e ∷ es) (bs ∷ bss) =
    (e.dir ≡ false → OnDisk disk p e bs) × AllOnDisk disk ps es bss

-- Every file of a copy, from the index `i` on, is answered for.
abbrev AllAnswer : (ℕ → ℕ → ℕ → FileReadResult) → ℕ → List FileEntry → List (List ℕ) → Type 0
AllAnswer ask i [] bss = bss ≡ []
AllAnswer ask i (e ∷ es) [] = ⊥
AllAnswer ask i (e ∷ es) (bs ∷ bss) =
    (e.dir ≡ false → Answers ask i e bs) × AllAnswer ask (suc i) es bss

pull_file_exact :
    (ask : ℕ → ℕ → ℕ → FileReadResult) (plan : Plan) (i : ℕ) (e : FileEntry) (p : FilePath)
    (bs : List ℕ) (g : Pulling)
    → Answers ask i e bs
    → (g' : Pulling) × (pull_file (calm ask) plan i e p g ≡ done g')
      × (g'.files ≡ g.files ++ ((p, bs) ∷ []))
      × (g'.folders ≡ g.folders)
unfolding pull_file
pull_file_exact ask plan i e p bs g a =
    let fresh : Pulling = record g { offset = 0; written = [] } in
    let (g', c, all) = copy_exact e.size ask plan i e bs fresh a (omega arith) refl in
    let full : Pulling = record g' {
      file_index = g'.file_index + 1;
      files = g'.files ++ ((p, g'.written) ∷ []);
    } in
    (full, rw c refl, rw all.files_same rw all.written_all refl, all.folders_same)

pull_entries_exact :
    (ask : ℕ → ℕ → ℕ → FileReadResult) (plan : Plan) (i : ℕ) (es : List FileEntry)
    (ps : List FilePath) (bss : List (List ℕ)) (g : Pulling)
    → length es ≡ length ps
    → AllAnswer ask i es bss
    → (g' : Pulling) × (pull_entries (calm ask) plan i es ps g ≡ done g')
      × (g'.files ≡ g.files ++ files_at es ps bss)
      × (g'.folders ≡ g.folders ++ folders_at es ps)
unfolding pull_entries pull_entry
pull_entries_exact ask plan i [] ps bss g same a =
    (g, refl, sym (append_nil g.files), sym (append_nil g.folders))
pull_entries_exact ask plan i (e ∷ es) [] bss g same a = ground (arith, same)
pull_entries_exact ask plan i (e ∷ es) (p ∷ ps) [] g same a = elim a [ ]
pull_entries_exact ask plan i (e ∷ es) (p ∷ ps) (bs ∷ bss) g same a = elim (Bool-cases e.dir) [
  | inl dir ↦
      let made : Pulling = record g { folders = g.folders ++ (p ∷ []) } in
      let (g', d, fs, ds) =
        pull_entries_exact ask plan (suc i) es ps bss made (omega (arith, same)) a.1 in
      (
        g',
        simp dir d,
        simp dir fs,
        simp dir (ds ∙ append_assoc g.folders (p ∷ []) (folders_at es ps)),
      )
  | inr file ↦
      let (g1, one, fs1, ds1) = pull_file_exact ask plan i e p bs g (a.0 file) in
      let (g', d, fs, ds) =
        pull_entries_exact ask plan (suc i) es ps bss g1 (omega (arith, same)) a.1 in
      (
        g',
        simp file simp one d,
        simp file (
            fs
            ∙ ap (λ l. l ++ files_at es ps bss) fs1
            ∙ append_assoc g.files ((p, bs) ∷ []) (files_at es ps bss)),
        simp file (ds ∙ ap (λ l. l ++ folders_at es ps) ds1),
      )
]

-- What the machine that announced the copy answers.
abbrev pub asked_of : Disk → ℕ → FileManifest → List FilePath → ℕ → ℕ → ℕ → FileReadResult
asked_of disk seq m abs_paths = Owner.read disk (Owner.set Owner.new seq m abs_paths) seq

read-OnDisk :
    (disk : Disk) (seq : ℕ) (m : FileManifest) (abs_paths : List FilePath) (i : ℕ) (e : FileEntry)
    (p : FilePath) (bs : List ℕ)
    → get_elem? m.entries i ≡ some e
    → get_elem? abs_paths i ≡ some p
    → e.dir ≡ false
    → OnDisk disk p e bs
    → Answers (asked_of disk seq m abs_paths) i e bs
unfolding Owner.read read_entry Owner.set Owner.new
read-OnDisk disk seq m abs_paths i e p bs at_i path_i file on = (
  on.size,
  λ o n le.
      let same : (seq == seq) ≡ true = ground arith in
      let served = read_at-OnDisk disk p e bs on o n le in
      rw same (rw (read_entry, at_i) (simp file (rw path_i served))),
)

-- The rest of a list, from an index on.
abbrev From {ℓ} : {A : Type ℓ} → List A → ℕ → List A → Type ℓ
From all i rest = (k : ℕ) → get_elem? all (i + k) ≡ get_elem? rest k

From-cons :
    {A : Type 0} (all : List A) (i : ℕ) (x : A) (xs : List A)
    → From all i (x ∷ xs)
    → (get_elem? all i ≡ some x) × From all (suc i) xs
From-cons all i x xs from =
    let here : i + 0 ≡ i = omega arith in
    (
      subst (λ k. get_elem? all k ≡ some x) here (from 0),
      λ k.
          let next : i + suc k ≡ suc i + k = omega arith in
          subst (λ j. get_elem? all j ≡ get_elem? xs k) next (from (suc k)),
    )

From-refl : {A : Type 0} (xs : List A) → From xs 0 xs
From-refl xs k = ap (get_elem? xs) (omega arith)

AllOnDisk-AllAnswer :
    (disk : Disk) (seq : ℕ) (m : FileManifest) (abs_paths : List FilePath) (i : ℕ)
    (es : List FileEntry) (ps : List FilePath) (bss : List (List ℕ))
    → From m.entries i es
    → From abs_paths i ps
    → AllOnDisk disk ps es bss
    → AllAnswer (asked_of disk seq m abs_paths) i es bss
AllOnDisk-AllAnswer disk seq m abs_paths i [] ps bss fe fp on = on
AllOnDisk-AllAnswer disk seq m abs_paths i (e ∷ es) [] bss fe fp on = elim on [ ]
AllOnDisk-AllAnswer disk seq m abs_paths i (e ∷ es) (p ∷ ps) [] fe fp on = elim on [ ]
AllOnDisk-AllAnswer disk seq m abs_paths i (e ∷ es) (p ∷ ps) (bs ∷ bss) fe fp on =
    let (at_i, fe') = From-cons m.entries i e es fe in
    let (path_i, fp') = From-cons abs_paths i p ps fp in
    (
      λ file. read-OnDisk disk seq m abs_paths i e p bs at_i path_i file (on.0 file),
      AllOnDisk-AllAnswer disk seq m abs_paths (suc i) es ps bss fe' fp' on.1,
    )

-- Copying between two machines keeps the files: when the files announced are on the owner's disk with the
-- announced sizes, every question is answered by the owner, and nothing is cancelled or fails on the disk of
-- the machine that pulls, then the pull ends and has written, for each entry in order, exactly the bytes on the
-- owner's disk at the path of the entry, and made the folders.
pub pull_into-read_exact :
    (disk : Disk) (seq : ℕ) (m : FileManifest) (abs_paths resolved : List FilePath)
    (contents : List (List ℕ))
    → AllOnDisk disk abs_paths m.entries contents
    → length m.entries ≡ length resolved
    → (g : Pulling) × (pull_into (calm (asked_of disk seq m abs_paths)) seq m resolved ≡ done g)
      × (g.files ≡ files_at m.entries resolved contents)
      × (g.folders ≡ folders_at m.entries resolved)
unfolding pull_into
pull_into-read_exact disk seq m abs_paths resolved contents on same =
    let plan : Plan = record {
      seq = seq;
      file_count = length (keep (λ e. not e.dir) m.entries);
      bytes_total = total_bytes m;
    } in
    pull_entries_exact (asked_of disk seq m abs_paths) plan 0 m.entries resolved contents
      nothing_yet same
      (AllOnDisk-AllAnswer disk seq m abs_paths 0 m.entries abs_paths contents (From-refl m.entries)
        (From-refl abs_paths) on)

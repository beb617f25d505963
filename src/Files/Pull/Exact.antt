-- ===== src/Files/Pull/Exact.antt =====
-- A pull (pull.rs) from the machine that announced the files (files.rs, `FileOwner`): both ends of a copy.
pub mod Copies
use geser_desk.Prelude.{
  ℕ, zero, suc, ◌+◌, ◌-◌, ◌≤◌, ◌<◌, Bool, true, false, not, ◌||◌, List, [], ◌∷◌, ◌++◌, Option, none,
  some, arith, ◌≡◌, refl, sym, subst, ap, ◌∙◌, ◌⊎◌, inl, inr, Bool-cases, length, keep, ltb, ◌==◌,
  if◌then◌else◌, min, take, drop, get_elem?, length-take,
}
use geser_desk.Message.{FileReadResult}
use geser_desk.Files.{FilePath, FileEntry, FileManifest, total_bytes}
use geser_desk.Files.Owner
use geser_desk.Files.Owner.{Disk, FileOwner, Current, max_read_len, read_at, read_entry, answered}
use geser_desk.Files.Pull.{
  PullError, answer, World, Pulling, Outcome, done, stopped, ◌>>=◌, Plan, nothing_yet, want,
  with_chunk, on_arrival, on_data, copy, pull_file, pull_entry, pull_entries, pull_into,
}

-- Nothing is cancelled, the disk takes everything, and every answer arrives.
abbrev pub calm : (ℕ → ℕ → ℕ → FileReadResult) → World
calm ask = record {
  cancelled_at_start = false;
  cancelled_before = λ i. false;
  makes_dest = true;
  creates = λ i. true;
  arrives = λ i o n. answer (ask i o n);
  writes = λ i o. true;
  flushes = λ i. true;
}

-- The part of a file that is asked for, as far as it goes.
abbrev pub part : List ℕ → ℕ → ℕ → List ℕ
part bytes o n = take (min (min n max_read_len) (length bytes - o)) (drop o bytes)

-- The file is on the disk with the announced size.
pub record OnDisk (disk : Disk) (path : FilePath) (e : FileEntry) (bytes : List ℕ) : Type 0 where
  pub size : length bytes ≡ e.size
  pub len : disk.len path ≡ some e.size
  pub no_link : disk.is_symlink path ≡ false
  pub reads : (o n : ℕ) → o + n ≤ e.size → disk.read_exact path o n ≡ some (take n (drop o bytes))

take_nil : (n : ℕ) → take {A = ℕ} n [] ≡ []
take_nil zero = refl
take_nil (suc n) = refl

-- Two parts that meet are one.
take-join : (o n : ℕ) (xs : List ℕ) → take o xs ++ take n (drop o xs) ≡ take (o + n) xs
take-join zero n xs = ap (λ k. take k xs) (omega arith)
take-join (suc o) n [] = take_nil n ∙ sym (take_nil (suc o + n))
take-join (suc o) n (x ∷ xs) =
    let next : suc (o + n) ≡ suc o + n = omega arith in
    subst (λ k. x ∷ (take o xs ++ take n (drop o xs)) ≡ take k (x ∷ xs)) next
      (ap (λ l. x ∷ l) (take-join o n xs))

take_all : (n : ℕ) (xs : List ℕ) → length xs ≤ n → take n xs ≡ xs
take_all zero [] le = refl
take_all zero (x ∷ xs) le = ground (arith, le)
take_all (suc n) [] le = refl
take_all (suc n) (x ∷ xs) le = ap (λ l. x ∷ l) (take_all n xs (omega (arith, le)))

length-drop : (n : ℕ) (xs : List ℕ) → length (drop n xs) ≡ length xs - n
length-drop zero xs = omega arith
length-drop (suc n) [] = omega arith
length-drop (suc n) (x ∷ xs) = omega (arith, length-drop n xs)

-- The answer to a question about a file that is on the disk.
pub read_at-OnDisk :
    (disk : Disk) (path : FilePath) (e : FileEntry) (bytes : List ℕ)
    → OnDisk disk path e bytes
    → (o n : ℕ) → o ≤ e.size
    → read_at disk path e o n ≡ FileReadResult.bytes (part bytes o n)
unfolding read_at
read_at-OnDisk disk path e bytes on o n le =
    let same : (e.size == e.size) ≡ true = ground arith in
    let within : ltb e.size o ≡ false = ground (arith, le) in
    let fits : o + min (min n max_read_len) (e.size - o) ≤ e.size = ground (arith, le) in
    rw (read_at, on.len) rw on.no_link rw same rw within rw
      (on.reads o (min (min n max_read_len) (e.size - o)) fits) rw on.size refl

-- What the asker gets of the file `e`.
abbrev pub Answers : (ℕ → ℕ → ℕ → FileReadResult) → ℕ → FileEntry → List ℕ → Type 0
Answers ask i e bytes =
    (length bytes ≡ e.size)
    × ((o n : ℕ) → o ≤ e.size → ask i o n ≡ FileReadResult.bytes (part bytes o n))

-- A chunk is as long as asked for, and goes on where the one before ended.
length-part :
    (bytes : List ℕ) (o n : ℕ)
    → length (part bytes o n) ≡ min (min n max_read_len) (length bytes - o)
length-part bytes o n = ground (
  arith,
  length-take (min (min n max_read_len) (length bytes - o)) (drop o bytes),
  length-drop o bytes,
)

take-part :
    (bytes : List ℕ) (o n : ℕ)
    → take o bytes ++ part bytes o n ≡ take (o + length (part bytes o n)) bytes
take-part bytes o n =
    take-join o (min (min n max_read_len) (length bytes - o)) bytes
    ∙ ap (λ k. take (o + k) bytes) (sym (length-part bytes o n))

on_arrival_some :
    (ask : ℕ → ℕ → ℕ → FileReadResult) (plan : Plan) (i : ℕ) (e : FileEntry) (g : Pulling)
    (bs : List ℕ)
    → 0 < length bs
    → on_arrival (calm ask) plan i e g (answer (FileReadResult.bytes bs))
      ≡ done (with_chunk plan e g bs)
unfolding on_arrival on_data
on_arrival_some ask plan i e g [] some_byte = ground (arith, some_byte)
on_arrival_some ask plan i e g (b ∷ bs) some_byte = refl

-- From `g` to the end of the file `e`: its bytes are in place, and the rest is untouched.
pub record Copied (bytes : List ℕ) (g g' : Pulling) : Type 0 where
  pub written_all : g'.written ≡ bytes
  pub files_same : g'.files ≡ g.files
  pub folders_same : g'.folders ≡ g.folders

copy_full :
    (fuel : ℕ) (w : World) (plan : Plan) (i : ℕ) (e : FileEntry) (bytes : List ℕ) (g : Pulling)
    → length bytes ≡ e.size
    → e.size ≤ g.offset
    → g.written ≡ take g.offset bytes
    → (g' : Pulling) × (copy fuel w plan i e g ≡ done g') × Copied bytes g g'
unfolding copy
copy_full fuel w plan i e bytes g size le had =
    let full : ltb g.offset e.size ≡ false = ground (arith, le) in
    (
      g,
      copy_stop fuel full,
      record {
        written_all = had ∙ take_all g.offset bytes (omega (arith, size, le));
        files_same = refl;
        folders_same = refl;
      },
    )
  where
    copy_stop : (fuel : ℕ) → ltb g.offset e.size ≡ false → copy fuel w plan i e g ≡ done g
    copy_stop zero f = rw (copy, f) refl
    copy_stop (suc fuel) f = rw (copy, f) refl

-- The loop copies the rest of the file.
pub copy_exact :
    (fuel : ℕ) (ask : ℕ → ℕ → ℕ → FileReadResult) (plan : Plan) (i : ℕ) (e : FileEntry)
    (bytes : List ℕ) (g : Pulling)
    → Answers ask i e bytes
    → e.size ≤ g.offset + fuel
    → g.written ≡ take g.offset bytes
    → (g' : Pulling) × (copy fuel (calm ask) plan i e g ≡ done g') × Copied bytes g g'
unfolding copy
copy_exact zero ask plan i e bytes g a enough had =
    copy_full zero (calm ask) plan i e bytes g a.0 (omega (arith, enough)) had
copy_exact (suc fuel) ask plan i e bytes g a enough had = elim (Bool-cases (ltb g.offset e.size)) [
  | inr f ↦ copy_full (suc fuel) (calm ask) plan i e bytes g a.0 (ground (arith, f)) had
  | inl t ↦
      let below : g.offset < e.size = ground (arith, t) in
      let bs : List ℕ = part bytes g.offset (want e g) in
      let some_byte : 0 < length bs =
        ground (arith, a.0, below, length-part bytes g.offset (want e g)) in
      let got : on_arrival (calm ask) plan i e g (answer (ask i g.offset (want e g)))
          ≡ done (with_chunk plan e g bs) =
        ap (λ r. on_arrival (calm ask) plan i e g (answer r))
          (a.1 g.offset (want e g) (omega (arith, below)))
        ∙ on_arrival_some ask plan i e g bs some_byte in
      let (g', c, rest) =
        copy_exact fuel ask plan i e bytes (with_chunk plan e g bs) a
          (omega (arith, enough, some_byte))
          (ap (λ l. l ++ bs) had ∙ take-part bytes g.offset (want e g)) in
      (
        g',
        rw (copy, t) rw got c,
        record {
          written_all = rest.written_all;
          files_same = rest.files_same;
          folders_same = rest.folders_same;
        },
      )
]

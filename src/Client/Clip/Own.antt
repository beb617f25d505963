-- ===== src/Client/Clip/Own.antt =====
-- The files of a client that wait for their echo or are served (net.rs, `ClientClipboard`).
use geser_desk.Prelude.{
  ℕ, Bool, true, false, not, ◌||◌, List, Option, none, some, ◌≡◌, refl, sym, subst, ap, ◌∙◌,
  some_eq, if◌then◌else◌, ◌≤◌,
}
use geser_desk.Chunks.{ClipboardId}
use geser_desk.Files.{FilePath, FileManifest}
use geser_desk.Files.Owner as Owner
use geser_desk.Files.Owner.{Current}
use geser_desk.Sync as Sync
use geser_desk.Sync.{Inner, Clipboard, effective_max, hard_files_max_bytes}
use geser_desk.Client.Clip.{
  ClientClipboard, manifest_eq, grab, announced, on_files_announced, pull_of, active, files_active,
}

-- `Copied` says of paths that a copy of them was made on this machine.
module _ (collect : List FilePath → ℕ → Option (FileManifest × List FilePath))
    (Copied : List FilePath → Type 0) where
  -- It was collected from a copy made on this machine, within the largest limit on files.
  abbrev pub Collected : FileManifest × List FilePath → Type 0
  Collected own =
      (roots : List FilePath) × (max : ℕ) × Copied roots
      × (max ≤ hard_files_max_bytes)
      × (collect roots max ≡ some own)

  -- What waits for its echo, and what is served, was collected here.
  pub record IsOwn (c : ClientClipboard) : Type 0 where
    pub waits :
        (own : FileManifest × List FilePath) → c.pending_own_files ≡ some own → Collected own
    pub serves :
        (k : Current) → c.files_owner.current ≡ some k → Collected (k.manifest, k.abs_paths)

  pub if-IsOwn :
      {c c' : ClientClipboard} (b : Bool) → IsOwn c → IsOwn c' → IsOwn (if b then c else c')
  if-IsOwn true own own' = own
  if-IsOwn false own own' = own'

  pub announced-IsOwn :
      (c : ClientClipboard) (seq : ℕ) (m : FileManifest) (o : Option (FileManifest × List FilePath))
      → c.pending_own_files ≡ o
      → IsOwn c
      → IsOwn (announced c seq m o)
  unfolding announced Owner.set
  announced-IsOwn c seq m none is_pending own = record { waits = own.waits; serves = own.serves }
  announced-IsOwn c seq m (some (mine, paths)) is_pending own =
      let mine_own = own.waits (mine, paths) is_pending in
      if-IsOwn (manifest_eq mine m)
        (record {
          waits = λ o e. cc;
          serves = λ k e. subst (λ x. Collected (x.manifest, x.abs_paths)) (some_eq e) mine_own;
        })
        (record { waits = λ o e. cc; serves = own.serves })

  pub on_files_announced-IsOwn :
      (c : ClientClipboard) (seq : ℕ) (m : FileManifest)
      → IsOwn c
      → IsOwn (on_files_announced c seq m)
  unfolding on_files_announced
  on_files_announced-IsOwn c seq m own =
      if-IsOwn (not c.options.clipboard_files) own
        (announced-IsOwn c seq m c.pending_own_files refl own)

  -- Changes elsewhere.
  pub same-IsOwn :
      (c c' : ClientClipboard)
      → c'.pending_own_files ≡ c.pending_own_files
      → c'.files_owner ≡ c.files_owner
      → IsOwn c
      → IsOwn c'
  same-IsOwn c c' same_pending same_owner own = record {
    waits = λ o e. own.waits o (sym same_pending ∙ e);
    serves = λ k e. own.serves k (sym (ap (λ x. x.current) same_owner) ∙ e);
  }

  -- The first part of a choice of pairs.
  pub ifs-IsOwn :
      {A : Type 0} (x y : ClientClipboard × A) (b : Bool)
      → IsOwn (x.0)
      → IsOwn (y.0)
      → IsOwn ((if b then x else y).0)
  ifs-IsOwn x y true own own' = own
  ifs-IsOwn x y false own own' = own'

  pub grab-IsOwn :
      (c : ClientClipboard) (id : ClipboardId) (seq : ℕ) → IsOwn c → IsOwn (grab c id seq)
  unfolding grab
  grab-IsOwn c id seq own = if-IsOwn (active c || files_active c) (same-IsOwn c _ refl refl own) own

  pub pull_of-IsOwn :
      (c : ClientClipboard) (o : Option (ℕ × FileManifest)) → IsOwn c → IsOwn ((pull_of c o).0)
  unfolding pull_of
  pull_of-IsOwn c none own = own
  pull_of-IsOwn c (some (seq, m)) own =
      ifs-IsOwn (c, none) (record c { last_pulled_seq = some seq }, some (seq, m))
        (not (files_active c) || Sync.same c.last_pulled_seq (some seq)) own
        (same-IsOwn c (record c { last_pulled_seq = some seq }) refl refl own)

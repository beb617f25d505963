-- ===== src/Client/Clip/Pushes.antt =====
-- What a push leaves of the files that a client waits for or serves (net.rs, `ClientClipboard`).
use geser_desk.Prelude.{
  ℕ, Bool, not, ◌||◌, List, [], Option, none, some, is_some, ◌≡◌, refl, subst, some_eq, ◌≤◌, arith,
}
use geser_desk.Content.{ClipboardContent}
use geser_desk.Files.{FilePath, FileManifest}
use geser_desk.Sync as Sync
use geser_desk.Sync.{
  Inner, Clipboard, effective_max, effective_files_max, hard_files_max_bytes, Got,
}
use geser_desk.Client.Clip.{
  ClientClipboard, next, polls, polls_files, pushed_data, changed_data, pushed_files, changed_files,
  changed_on,
}
use geser_desk.Client.Clip.Own.{Collected, IsOwn, ifs-IsOwn, same-IsOwn}

module _ (collect : List FilePath → ℕ → Option (FileManifest × List FilePath))
    (Copied : List FilePath → Type 0) where
  module _ (encode : ClipboardContent → List ℕ) (is_utf8 : List ℕ → Bool)
      (reads_files : List ℕ → Option FileManifest) (encode_files : FileManifest → List ℕ)
      (decode : List ℕ → Option ClipboardContent) where
    module _ (fingerprint : ClipboardContent → ℕ) (fingerprint_paths : List FilePath → ℕ)
        {S : Type 0} (os : Clipboard S) where
      pushed_data-IsOwn :
          (c : ClientClipboard) (i : Inner) (o : Option ClipboardContent)
          → IsOwn collect Copied c
          → IsOwn collect Copied (
              (pushed_data encode is_utf8 reads_files encode_files decode collect fingerprint
                fingerprint_paths os c i o).0)
      unfolding pushed_data
      pushed_data-IsOwn c i none own =
          same-IsOwn collect Copied c (record c { sync = some i }) refl refl own
      pushed_data-IsOwn c i (some content) own =
          same-IsOwn collect Copied c
            (record c {
              sync = some i;
              seq =
                  next encode is_utf8 reads_files encode_files decode collect fingerprint
                    fingerprint_paths os c.seq;
            })
            refl refl own

      changed_data-IsOwn :
          (c : ClientClipboard) (s : S) (o : Option Inner)
          → IsOwn collect Copied c
          → IsOwn collect Copied (
              (changed_data encode is_utf8 reads_files encode_files decode collect fingerprint
                fingerprint_paths os c s o).0)
      unfolding changed_data
      changed_data-IsOwn c s none own = own
      changed_data-IsOwn c s (some i) own =
          let found =
            polls encode is_utf8 reads_files encode_files decode collect fingerprint
              fingerprint_paths os i s (effective_max c.options.clipboard_max_bytes) in
          ifs-IsOwn collect Copied (c, [])
            (pushed_data encode is_utf8 reads_files encode_files decode collect fingerprint
              fingerprint_paths os c (found.0) (found.1))
            (not c.options.clipboard_sharing) own (pushed_data-IsOwn c (found.0) (found.1) own)

      pushed_files-IsOwn :
          (c : ClientClipboard) (s : S) (roots : List FilePath) (max : ℕ)
          (o : Option (FileManifest × List FilePath))
          → Copied roots
          → max ≤ hard_files_max_bytes
          → collect roots max ≡ o
          → IsOwn collect Copied c
          → IsOwn collect Copied (
              (pushed_files encode is_utf8 reads_files encode_files decode collect fingerprint
                fingerprint_paths os c s o).0)
      unfolding pushed_files
      pushed_files-IsOwn c s roots max none copied most got own = changed_data-IsOwn c s c.sync own
      pushed_files-IsOwn c s roots max (some (m, paths)) copied most got own = record {
        waits = λ o e. subst (Collected collect Copied) (some_eq e) (roots, max, copied, most, got);
        serves = own.serves;
      }

      effective_files_max-most : (n : ℕ) → effective_files_max n ≤ hard_files_max_bytes
      unfolding effective_files_max
      effective_files_max-most n = ground arith

      changed_files-IsOwn :
          (c : ClientClipboard) (s : S) (o : Option (List FilePath))
          → ((roots : List FilePath) → o ≡ some roots → Copied roots)
          → IsOwn collect Copied c
          → IsOwn collect Copied (
              (changed_files encode is_utf8 reads_files encode_files decode collect fingerprint
                fingerprint_paths os c s o).0)
      unfolding changed_files
      changed_files-IsOwn c s none copied own = changed_data-IsOwn c s c.sync own
      changed_files-IsOwn c s (some roots) copied own =
          let max = effective_files_max c.options.clipboard_files_max_bytes in
          pushed_files-IsOwn c s roots max (collect roots max) (copied roots refl)
            (effective_files_max-most c.options.clipboard_files_max_bytes) refl own

      polls_files-listed :
          (i : Inner) (s : S) (roots : List FilePath)
          → (polls_files encode is_utf8 reads_files encode_files decode collect fingerprint
              fingerprint_paths os i s).1
            ≡ some roots
          → os.file_list s ≡ Got.got roots
      unfolding Sync.poll_files Sync.offer_files
      polls_files-listed i s roots e = ground (arith, e)

      pub changed_on-IsOwn :
          (c : ClientClipboard) (s : S) (o : Option Inner)
          → ((roots : List FilePath) → os.file_list s ≡ Got.got roots → Copied roots)
          → IsOwn collect Copied c
          → IsOwn collect Copied (
              (changed_on encode is_utf8 reads_files encode_files decode collect fingerprint
                fingerprint_paths os c s o).0)
      unfolding changed_on
      changed_on-IsOwn c s none copied own = changed_data-IsOwn c s none own
      changed_on-IsOwn c s (some i) copied own =
          let found =
            polls_files encode is_utf8 reads_files encode_files decode collect fingerprint
              fingerprint_paths os i s in
          let c' : ClientClipboard = record c { sync = some (found.0) } in
          ifs-IsOwn collect Copied
            (changed_data encode is_utf8 reads_files encode_files decode collect fingerprint
              fingerprint_paths os c s (some i))
            (changed_files encode is_utf8 reads_files encode_files decode collect fingerprint
              fingerprint_paths os c' s (found.1))
            (not c.options.clipboard_files || is_some c.pending_own_files)
            (changed_data-IsOwn c s (some i) own)
            (changed_files-IsOwn c' s (found.1)
              (λ roots e. copied roots (polls_files-listed i s roots e))
              (same-IsOwn collect Copied c c' refl refl own))

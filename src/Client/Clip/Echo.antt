-- ===== src/Client/Clip/Echo.antt =====
-- A push of copied files and its echo (net.rs, `ClientClipboard`), which makes the client serve them.
use geser_desk.Prelude.{
  ℕ, ◌+◌, ◌≤◌, Bool, true, false, not, ◌||◌, if◌then◌else◌, List, Option, none, some, is_some,
  is_empty, find, length, arith, ◌≡◌, refl, sym, ap, ◌∙◌, subst,
}
use geser_desk.Chunks.{clipboard, stream}
use geser_desk.Content.{ClipboardContent, files, with_files, data_len}
use geser_desk.Inbound as In
use geser_desk.Inbound.{Inbound, Received, nothing, content, err, data_in, pushed}
use geser_desk.Inbound.Delivery.{receive_all-stream}
use geser_desk.Files.{FilePath, FileManifest}
use geser_desk.Sync.{Inner, Clipboard, effective_max, effective_files_max}
use geser_desk.Client.Clip.{
  ClientClipboard, grab, push_of, next, polls_files, pushed_files, changed_files, changed_data,
  changed_on, changed, active, files_active,
}
use geser_desk.Client.Clip.Feed.{Serves, feed, feed_receives}

module _ (encode : ClipboardContent → List ℕ) (is_utf8 : List ℕ → Bool)
    (reads_files : List ℕ → Option FileManifest) (encode_files : FileManifest → List ℕ)
    (decode : List ℕ → Option ClipboardContent)
    (collect : List FilePath → ℕ → Option (FileManifest × List FilePath)) where
  module _ (fingerprint : ClipboardContent → ℕ) (fingerprint_paths : List FilePath → ℕ) {S : Type 0}
      (os : Clipboard S) where
    -- The push of a copy: its messages, and what waits for the echo.
    changed-push_of :
        (c : ClientClipboard) (i : Inner) (s : S) (roots : List FilePath) (m : FileManifest)
        (paths : List FilePath)
        → c.sync ≡ some i
        → c.options.clipboard_files ≡ true
        → c.pending_own_files ≡ none
        → (polls_files encode is_utf8 reads_files encode_files decode collect fingerprint
            fingerprint_paths os i s).1
          ≡ some roots
        → collect roots (effective_files_max c.options.clipboard_files_max_bytes) ≡ some (m, paths)
        → changed encode is_utf8 reads_files encode_files decode collect fingerprint
            fingerprint_paths os c s
          ≡ (
            record c {
              sync = some (
                  (polls_files encode is_utf8 reads_files encode_files decode collect fingerprint
                    fingerprint_paths os i s).0);
              seq =
                  next encode is_utf8 reads_files encode_files decode collect fingerprint
                    fingerprint_paths os c.seq;
              pending_own_files = some (m, paths);
            },
            push_of encode
                (next encode is_utf8 reads_files encode_files decode collect fingerprint
                  fingerprint_paths os c.seq)
                (with_files encode_files m),
          )
    unfolding changed changed_on changed_files pushed_files
    changed-push_of c i s roots m paths is_on on idle found got =
        let c' : ClientClipboard = record c {
          sync = some (
              (polls_files encode is_utf8 reads_files encode_files decode collect fingerprint
                fingerprint_paths os i s).0);
        } in
        ap
          (changed_on encode is_utf8 reads_files encode_files decode collect fingerprint
            fingerprint_paths os c s)
          is_on
        ∙ ap
            (λ b.
              if not b || is_some c.pending_own_files
              then changed_data encode is_utf8 reads_files encode_files decode collect fingerprint
                  fingerprint_paths os c s (some i)
              else changed_files encode is_utf8 reads_files encode_files decode collect fingerprint
                  fingerprint_paths os c' s
                  ((polls_files encode is_utf8 reads_files encode_files decode collect fingerprint
                    fingerprint_paths os i s).1))
            on
        ∙ ap
            (λ o.
              if is_some o
              then changed_data encode is_utf8 reads_files encode_files decode collect fingerprint
                  fingerprint_paths os c s (some i)
              else changed_files encode is_utf8 reads_files encode_files decode collect fingerprint
                  fingerprint_paths os c' s
                  ((polls_files encode is_utf8 reads_files encode_files decode collect fingerprint
                    fingerprint_paths os i s).1))
            idle
        ∙ ap
            (changed_files encode is_utf8 reads_files encode_files decode collect fingerprint
              fingerprint_paths os c' s)
            found
        ∙ ap
            (pushed_files encode is_utf8 reads_files encode_files decode collect fingerprint
              fingerprint_paths os c' s)
            got

    files-with_files :
        (m : FileManifest)
        → is_empty m.entries ≡ false
        → reads_files (encode_files m) ≡ some m
        → (files is_utf8 reads_files (with_files encode_files m) ≡ some m)
          × (data_len (with_files encode_files m) ≡ length (encode_files m))
    unfolding files with_files data_len find
    files-with_files m entries reads = rw entries (reads, omega arith)

    -- Files are copied on a client that shares files and has no push under way, and the next tick finds them: it
    -- pushes their manifest. When the server echoes the push, as the transfer `seq`, the client serves just
    -- these files under that number, no push is under way, and the system's clipboard is not touched. The manifest
    -- has an entry and is read back from its encoding, and its encodings are within the limits.
    pub on_data-changed :
        (c : ClientClipboard) (i : Inner) (s s' : S) (roots : List FilePath) (m : FileManifest)
        (paths : List FilePath) (seq : ℕ)
        → c.sync ≡ some i
        → c.options.clipboard_files ≡ true
        → c.pending_own_files ≡ none
        → (polls_files encode is_utf8 reads_files encode_files decode collect fingerprint
            fingerprint_paths os i s).1
          ≡ some roots
        → collect roots (effective_files_max c.options.clipboard_files_max_bytes) ≡ some (m, paths)
        → is_empty m.entries ≡ false
        → reads_files (encode_files m) ≡ some m
        → decode (encode (with_files encode_files m)) ≡ some (with_files encode_files m)
        → length (encode_files m) ≤ effective_max c.options.clipboard_max_bytes
        → length (encode (with_files encode_files m))
          ≤ effective_max c.options.clipboard_max_bytes + 4096
        → let pushed =
            changed encode is_utf8 reads_files encode_files decode collect fingerprint
              fingerprint_paths os c s in
          (pushed.1
            ≡ push_of encode
                (next encode is_utf8 reads_files encode_files decode collect fingerprint
                  fingerprint_paths os c.seq)
                (with_files encode_files m))
          × Serves
              (feed encode is_utf8 reads_files encode_files decode collect fingerprint
                fingerprint_paths os
                (grab (pushed.0) clipboard seq, s')
                seq
                (stream (encode (with_files encode_files m))))
              s'
              seq
              m
              paths
    unfolding grab active files_active effective_max
    on_data-changed c i s s' roots m paths seq is_on on idle found got entries reads decodes fits
          slack =
        let content = with_files encode_files m in
        let max = effective_max c.options.clipboard_max_bytes in
        let c' : ClientClipboard = record c {
          sync = some (
              (polls_files encode is_utf8 reads_files encode_files decode collect fingerprint
                fingerprint_paths os i s).0);
          seq =
              next encode is_utf8 reads_files encode_files decode collect fingerprint
                fingerprint_paths os c.seq;
          pending_own_files = some (m, paths);
        } in
        let (carries, size) = files-with_files m entries reads in
        let now = changed-push_of c i s roots m paths is_on on idle found got in
        let whole =
          receive_all-stream decode c.inbound seq max content (encode content) decodes
            (omega (arith, size, fits)) slack (ground (arith, slack)) in
        let grabbed : grab c' clipboard seq
            ≡ record c' { inbound = In.grab c.inbound clipboard seq max } =
          ground (arith, on) in
        (
          ap (λ r. r.1) now,
          subst
              (λ r.
                Serves
                  (feed encode is_utf8 reads_files encode_files decode collect fingerprint
                    fingerprint_paths os (grab (r.0) clipboard seq, s') seq
                    (stream (encode content)))
                  s' seq m paths)
              (sym now)
              (subst
                (λ x.
                  Serves
                    (feed encode is_utf8 reads_files encode_files decode collect fingerprint
                      fingerprint_paths os (x, s') seq (stream (encode content)))
                    s' seq m paths)
                (sym grabbed)
                (feed_receives encode is_utf8 reads_files encode_files decode collect fingerprint
                  fingerprint_paths os (stream (encode content))
                  (record c' { inbound = In.grab c.inbound clipboard seq max }) s' seq m paths
                  content on refl carries whole)),
        )

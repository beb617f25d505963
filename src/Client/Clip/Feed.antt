-- ===== src/Client/Clip/Feed.antt =====
-- The echo of a push of files, chunk by chunk (net.rs, `ClientClipboard`).
use geser_desk.Prelude.{
  ℕ, Bool, true, List, [], ◌∷◌, Option, none, some, arith, ◌≡◌, refl, sym, ap, ◌∙◌, subst,
}
use geser_desk.Chunks.{clipboard, Chunk}
use geser_desk.Content.{ClipboardContent, files}
use geser_desk.Inbound as In
use geser_desk.Inbound.{Inbound, Received, nothing, content, err, data_in, pushed}
use geser_desk.Inbound.Limits.{data_in_over}
use geser_desk.Inbound.Delivery.{receive_all, continue}
use geser_desk.Files.{Text, FilePath, FileEntry, FileManifest}
use geser_desk.Files.Owner as Owner
use geser_desk.Files.Owner.{Current}
use geser_desk.Files.Stage.{text_eq}
use geser_desk.Sync.{Clipboard}
use geser_desk.Client.Clip.{
  ClientClipboard, manifest_eq, entries_eq, announced, on_files_announced, on_received, on_content,
  on_data,
}

text_eq_refl : (t : Text) → text_eq t t ≡ true
text_eq_refl [] = refl
text_eq_refl (c ∷ t) = ground (arith, text_eq_refl t)

entries_eq_refl : (es : List FileEntry) → entries_eq es es ≡ true
entries_eq_refl [] = refl
entries_eq_refl (e ∷ es) = ground (arith, text_eq_refl e.path, entries_eq_refl es)

-- The push of `m` no longer waits, and its files are served under the number of the echo.
abbrev pub Serves :
    {S : Type 0} → ClientClipboard × S → S → ℕ → FileManifest → List FilePath → Type 0
Serves r s seq m paths =
    (r.0.files_owner.current ≡ some (record { seq = seq; manifest = m; abs_paths = paths }))
    × (r.0.pending_own_files ≡ none)
    × (r.1 ≡ s)

announced-Serves :
    {S : Type 0} (c : ClientClipboard) (s : S) (seq : ℕ) (m : FileManifest) (paths : List FilePath)
    → c.options.clipboard_files ≡ true
    → c.pending_own_files ≡ some (m, paths)
    → Serves (on_files_announced c seq m, s) s seq m paths
unfolding on_files_announced announced Owner.set
announced-Serves c s seq m paths on waits =
    let same : manifest_eq m m ≡ true = entries_eq_refl m.entries in
    rw (on, waits, announced, same) (refl, refl, refl)

module _ (encode : ClipboardContent → List ℕ) (is_utf8 : List ℕ → Bool)
    (reads_files : List ℕ → Option FileManifest) (encode_files : FileManifest → List ℕ)
    (decode : List ℕ → Option ClipboardContent)
    (collect : List FilePath → ℕ → Option (FileManifest × List FilePath)) where
  module _ (fingerprint : ClipboardContent → ℕ) (fingerprint_paths : List FilePath → ℕ) {S : Type 0}
      (os : Clipboard S) where
    abbrev received_here : ClientClipboard → S → ℕ → Received → ClientClipboard × S
    received_here =
        on_received encode is_utf8 reads_files encode_files decode collect fingerprint
          fingerprint_paths os

    -- Chunk after chunk of the transfer `seq`.
    abbrev pub feed : ClientClipboard × S → ℕ → List Chunk → ClientClipboard × S
    feed r seq [] = r
    feed r seq (chunk ∷ cs) =
        feed
          (on_data encode is_utf8 reads_files encode_files decode collect fingerprint
            fingerprint_paths os (r.0) (r.1) clipboard seq chunk)
          seq cs

    on_data_on :
        (c : ClientClipboard) (s : S) (seq : ℕ) (chunk : Chunk)
        → c.options.clipboard_files ≡ true
        → on_data encode is_utf8 reads_files encode_files decode collect fingerprint
            fingerprint_paths os c s clipboard seq chunk
          ≡ received_here
              (record c { inbound = (data_in decode c.inbound clipboard seq chunk).0 })
              s
              seq
              ((data_in decode c.inbound clipboard seq chunk).1)
    unfolding on_data
    on_data_on c s seq chunk on = ground (arith, on)

    -- No transfer is going on: the chunks are dropped.
    feed_over :
        (cs : List Chunk) (c : ClientClipboard) (s s' : S) (seq : ℕ) (m : FileManifest)
        (paths : List FilePath)
        → c.inbound ≡ In.new
        → c.options.clipboard_files ≡ true
        → Serves (c, s) s' seq m paths
        → Serves (feed (c, s) seq cs) s' seq m paths
    unfolding data_in on_received In.new
    feed_over [] c s s' seq m paths over on served = served
    feed_over (chunk ∷ cs) c s s' seq m paths over on served =
        let dropped : on_data encode is_utf8 reads_files encode_files decode collect fingerprint
              fingerprint_paths os c s clipboard seq chunk
            ≡ (c, s) =
          on_data_on c s seq chunk on
          ∙ ap
              (λ i.
                received_here (record c { inbound = (data_in decode i clipboard seq chunk).0 }) s
                  seq ((data_in decode i clipboard seq chunk).1))
              over
          ∙ ap (λ i. (record c { inbound = i }, s)) (sym over) in
        subst (λ r. Serves (feed r seq cs) s' seq m paths) (sym dropped)
          (feed_over cs c s s' seq m paths over on served)

    nothing_received :
        (c : ClientClipboard) (s : S) (seq : ℕ) → received_here c s seq nothing ≡ (c, s)
    unfolding on_received
    nothing_received c s seq = refl

    -- The manifest has come.
    received-Serves :
        (c : ClientClipboard) (s : S) (seq : ℕ) (m : FileManifest) (paths : List FilePath)
        (k : ClipboardContent)
        → c.options.clipboard_files ≡ true
        → c.pending_own_files ≡ some (m, paths)
        → files is_utf8 reads_files k ≡ some m
        → received_here c s seq (content k) ≡ (on_files_announced c seq m, s)
    unfolding on_received on_content
    received-Serves c s seq m paths k on waits carries =
        ap
          (on_content encode is_utf8 reads_files encode_files decode collect fingerprint
            fingerprint_paths os c s seq k)
          carries

    announced_same :
        (c : ClientClipboard) (seq : ℕ) (m : FileManifest) (paths : List FilePath)
        → c.options.clipboard_files ≡ true
        → c.pending_own_files ≡ some (m, paths)
        → ((on_files_announced c seq m).inbound ≡ c.inbound)
          × ((on_files_announced c seq m).options.clipboard_files ≡ true)
    unfolding on_files_announced announced
    announced_same c seq m paths on waits =
        let same : manifest_eq m m ≡ true = entries_eq_refl m.entries in
        rw (on, waits, announced, same) (refl, on)

    -- The chunks of a transfer that the receiver makes the manifest of.
    pub feed_receives :
        (cs : List Chunk) (c : ClientClipboard) (s : S) (seq : ℕ) (m : FileManifest)
        (paths : List FilePath) (k : ClipboardContent)
        → c.options.clipboard_files ≡ true
        → c.pending_own_files ≡ some (m, paths)
        → files is_utf8 reads_files k ≡ some m
        → (receive_all decode c.inbound seq cs).1 ≡ content k
        → Serves (feed (c, s) seq cs) s seq m paths
    feed_receives [] c s seq m paths k on waits carries e = cc
    feed_receives (chunk ∷ cs) c s seq m paths k on waits carries e =
        subst (λ r. Serves (feed r seq cs) s seq m paths) (sym (on_data_on c s seq chunk on))
          (one (data_in decode c.inbound clipboard seq chunk)
            (λ j p. data_in_over decode c.inbound.current clipboard seq chunk j p)
            (λ i p. feed_receives cs (record c { inbound = i }) s seq m paths k on waits carries p)
            e)
      where
        received_nothing :
            (i : Inbound)
            → received_here (record c { inbound = i }) s seq nothing ≡ (record c { inbound = i }, s)
        received_nothing i = nothing_received (record c { inbound = i }) s seq

        one :
            (r : Inbound × Received)
            → ((j : ClipboardContent) → r.1 ≡ content j → r.0 ≡ In.new)
            → ((i : Inbound)
                → (receive_all decode i seq cs).1 ≡ content k
                → Serves (feed (record c { inbound = i }, s) seq cs) s seq m paths)
            → (continue decode (λ i. receive_all decode i seq cs) r).1 ≡ content k
            → Serves
                (feed (received_here (record c { inbound = r.0 }) s seq (r.1)) seq cs)
                s
                seq
                m
                paths
        one (i, nothing) over later p =
            subst (λ r. Serves (feed r seq cs) s seq m paths) (sym (received_nothing i)) (later i p)
        one (i, content j) over later p =
            let c' : ClientClipboard = record c { inbound = i } in
            let same : files is_utf8 reads_files j ≡ some m =
              subst (λ x. files is_utf8 reads_files x ≡ some m) (sym (cc p)) carries in
            let (kept, still_on) = announced_same c' seq m paths on waits in
            subst (λ r. Serves (feed r seq cs) s seq m paths)
              (sym (received-Serves c' s seq m paths j on waits same))
              (feed_over cs (on_files_announced c' seq m) s s seq m paths (kept ∙ over j refl)
                still_on (announced-Serves c' s seq m paths on waits))
        one (i, err x) over later p = cc

-- ===== src/Sync/Fit.antt =====
-- The limit on what is shared (lib.rs, `fit`).
use geser_desk.Prelude.{
  ℕ, ◌≤◌, Bool, true, false, not, ◌&&◌, leb, List, [], ◌∷◌, Option, some, arith, ◌≡◌, refl,
  find-holds,
}
use geser_desk.Content.{ClipboardContent, without_html, data_len, holds_nothing, text_only}
use geser_desk.Files.{FileManifest}
use geser_desk.Sync.{fit}

module _ (is_utf8 : List ℕ → Bool) (reads_files : List ℕ → Option FileManifest) where
  -- Nothing that is shared is larger than the limit or empty, and contents that hold something and are within
  -- the limit are shared as they are.
  pub fit_bounds :
      (c : ClipboardContent) (max_bytes : ℕ)
      → ((f : ClipboardContent)
          → fit is_utf8 reads_files c max_bytes ≡ some f
          → (data_len f ≤ max_bytes) × (holds_nothing is_utf8 reads_files f ≡ false))
        × (data_len c ≤ max_bytes
            → holds_nothing is_utf8 reads_files c ≡ false
            → fit is_utf8 reads_files c max_bytes ≡ some c)
  unfolding fit
  fit_bounds c max_bytes = (
    λ f found.
        let passes =
          find-holds (λ x. not (holds_nothing is_utf8 reads_files x) && leb (data_len x) max_bytes)
            (c ∷ without_html c ∷ text_only is_utf8 reads_files c ∷ []) found in
        ground (arith, passes),
    λ small full.
        let passes : (not (holds_nothing is_utf8 reads_files c) && leb (data_len c) max_bytes)
            ≡ true =
          ground (arith, small, full) in
        rw passes refl,
  )

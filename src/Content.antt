-- ===== src/Content.antt =====
-- crates/geserdesk-proto/src/clipboard.rs, what a clipboard holds: one item for each format.
use geser_desk.Prelude.{
  ℕ, ◌+◌, Bool, not, ◌&&◌, is_some, String, List, [], ◌∷◌, ◌++◌, Option, find, keep, length,
  is_empty, ◌is◌, if◌then◌else◌,
}
use geser_desk.Files.{FileManifest}

abbrev pub mime_text : String
mime_text = "text/plain"

abbrev pub mime_html : String
mime_html = "text/html"

abbrev pub mime_image : String
mime_image = "image/png"

-- The data is the format's bytes.
pub record ClipboardItem : Type 0 where
  pub mime : String
  pub data_bytes : List ℕ

pub record ClipboardContent : Type 0 where
  pub items : List ClipboardItem

abbrev pub item_of : String → ClipboardContent → Option ClipboardItem
item_of mime c = find (λ i. i.mime is mime) c.items

unfoldable pub image : ClipboardContent → Option (List ℕ)
image c = elim (item_of mime_image c) [
  | Option.none ↦ Option.none
  | Option.some i ↦ Option.some i.data_bytes
]

abbrev pub without : String → ClipboardContent → List ClipboardItem
without mime c = keep (λ i. not (i.mime is mime)) c.items

unfoldable pub with_image : ClipboardContent → List ℕ → ClipboardContent
with_image c png = if is_empty png then record { items = without mime_image c } else record {
  items = without mime_image c ++ (record { mime = mime_image; data_bytes = png } ∷ []);
}

unfoldable pub without_html : ClipboardContent → ClipboardContent
without_html c = record { items = without mime_html c }

abbrev pub items_len : List ClipboardItem → ℕ
items_len [] = 0
items_len (i ∷ rest) = length i.data_bytes + items_len rest

unfoldable pub data_len : ClipboardContent → ℕ
data_len c = items_len c.items

abbrev pub mime_files : String
mime_files = "application/x-geserdesk-files"

-- Contents of text alone, if there is any.
abbrev pub of_text : Option (List ℕ) → ClipboardContent
of_text Option.none = record { items = [] }
of_text (Option.some t) = record {
  items = if is_empty t then [] else (record { mime = mime_text; data_bytes = t } ∷ []);
}

-- The parameters are the standard library's test for UTF-8 and the reading of a manifest by another library.
module _ (is_utf8 : List ℕ → Bool) (reads_files : List ℕ → Option FileManifest) where
  abbrev pub valid : Option ClipboardItem → Option (List ℕ)
  valid Option.none = Option.none
  valid (Option.some i) = if is_utf8 i.data_bytes then Option.some i.data_bytes else Option.none

  abbrev pub text_in : String → ClipboardContent → Option (List ℕ)
  text_in mime c = valid (item_of mime c)

  abbrev pub read_from : Option ClipboardItem → Option FileManifest
  read_from Option.none = Option.none
  read_from (Option.some i) = reads_files i.data_bytes

  unfoldable pub files : ClipboardContent → Option FileManifest
  unfolding find
  files c = read_from (item_of mime_files c)

  -- `is_empty`
  unfoldable pub holds_nothing : ClipboardContent → Bool
  unfolding files image find
  holds_nothing c =
      not (is_some (text_in mime_text c))
      && not (is_some (text_in mime_html c))
      && not (is_some (image c))
      && not (is_some (files c))

  unfoldable pub text_only : ClipboardContent → ClipboardContent
  unfolding find
  text_only c = of_text (text_in mime_text c)

-- `with_files`; the bytes of a manifest are another library's.
unfoldable pub with_files : (FileManifest → List ℕ) → FileManifest → ClipboardContent
with_files encode m =
    if is_empty m.entries
    then record { items = [] }
    else record { items = record { mime = mime_files; data_bytes = encode m } ∷ [] }

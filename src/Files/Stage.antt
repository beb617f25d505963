-- ===== src/Files/Stage.antt =====
-- crates/geserdesk-clipboard/src/stage.rs: the names of a copy, checked before anything is written. What
-- `to_lowercase` does to a text is the parameter `lower`; the reserved names are compared without regard
-- to the case of ASCII letters.
pub mod Safe
use geser_desk.Prelude.{
  ℕ, ◌+◌, ◌-◌, Bool, true, false, not, ◌||◌, ◌&&◌, List, [], ◌∷◌, ◌++◌, any, ltb, leb, ◌==◌,
  if◌then◌else◌, map,
}
use geser_desk.Files.{Text, FilePath, FileEntry}

pub data SanitizeError : Type 0 where
  empty escapes reserved_name too_long duplicate : SanitizeError

-- `Result<PathBuf, SanitizeError>` and `Result<Vec<PathBuf>, SanitizeError>`
pub data Sanitized (A : Type 0) : Type 0 where
  err : SanitizeError → Sanitized A
  ok : A → Sanitized A

infixl 5 ◌>>=◌
abbrev pub ◌>>=◌ : {A B : Type 0} → Sanitized A → (A → Sanitized B) → Sanitized B
err problem >>= next = err problem
ok a >>= next = next a

-- Equality of texts.
abbrev pub text_eq : Text → Text → Bool
text_eq [] [] = true
text_eq [] (d ∷ ds) = false
text_eq (c ∷ cs) [] = false
text_eq (c ∷ cs) (d ∷ ds) = c == d && text_eq cs ds

-- `split(c)`: the parts between the separators, one more than there are of these.
abbrev pub onto_first : ℕ → List Text → List Text
onto_first c [] = (c ∷ []) ∷ []
onto_first c (p ∷ ps) = (c ∷ p) ∷ ps

unfoldable pub split : ℕ → Text → List Text
split s [] = [] ∷ []
split s (c ∷ cs) = let rest = split s cs in if c == s then [] ∷ rest else onto_first c rest

-- `char::is_control`: the general category Cc.
abbrev pub is_control : ℕ → Bool
is_control c = ltb c 32 || (leb 127 c && ltb c 160)

-- `str::len`, which counts the bytes of UTF-8.
abbrev pub utf8_width : ℕ → ℕ
utf8_width c = if ltb c 128 then 1 else if ltb c 2048 then 2 else if ltb c 65536 then 3 else 4

abbrev pub utf8_len : Text → ℕ
utf8_len [] = 0
utf8_len (c ∷ cs) = utf8_width c + utf8_len cs

abbrev pub ends_with : ℕ → Text → Bool
ends_with s [] = false
ends_with s (c ∷ []) = c == s
ends_with s (c ∷ d ∷ cs) = ends_with s (d ∷ cs)

-- `split('.').next()`
abbrev pub stem : Text → Text
stem [] = []
stem (c ∷ cs) = let rest = stem cs in if c == b'.' then [] else c ∷ rest

abbrev pub to_ascii_upper : ℕ → ℕ
to_ascii_upper c = if leb b'a' c && leb c b'z' then c - 32 else c

-- `COM1` to `COM9`, and `LPT1` to `LPT9`.
abbrev pub numbered : ℕ → ℕ → ℕ → List Text
numbered a b c =
    (a ∷ b ∷ c ∷ b'1' ∷ [])
    ∷ (a ∷ b ∷ c ∷ b'2' ∷ [])
    ∷ (a ∷ b ∷ c ∷ b'3' ∷ [])
    ∷ (a ∷ b ∷ c ∷ b'4' ∷ [])
    ∷ (a ∷ b ∷ c ∷ b'5' ∷ [])
    ∷ (a ∷ b ∷ c ∷ b'6' ∷ [])
    ∷ (a ∷ b ∷ c ∷ b'7' ∷ [])
    ∷ (a ∷ b ∷ c ∷ b'8' ∷ [])
    ∷ (a ∷ b ∷ c ∷ b'9' ∷ [])
    ∷ []

abbrev pub windows_reserved : List Text
windows_reserved =
    (b'C' ∷ b'O' ∷ b'N' ∷ [])
    ∷ (b'P' ∷ b'R' ∷ b'N' ∷ [])
    ∷ (b'A' ∷ b'U' ∷ b'X' ∷ [])
    ∷ (b'N' ∷ b'U' ∷ b'L' ∷ [])
    ∷ (numbered b'C' b'O' b'M' ++ numbered b'L' b'P' b'T')

unfoldable pub is_reserved : Text → Bool
is_reserved name = any (λ r. text_eq r (map to_ascii_upper name)) windows_reserved

unfoldable pub is_odd : Text → Bool
is_odd part = any (λ c. c == b'\\' || c == b':' || is_control c) part

-- The tests on one part of a path.
unfoldable pub check_part : Text → Sanitized Text
unfolding is_reserved is_odd
check_part part =
    if text_eq part [] || text_eq part (b'.' ∷ []) || text_eq part (b'.' ∷ b'.' ∷ [])
    then err escapes
    else if is_odd part
    then err escapes
    else if ltb 255 (utf8_len part)
    then err too_long
    else if ends_with b'.' part || ends_with b' ' part
    then err reserved_name
    else if is_reserved (stem part)
    then err reserved_name
    else ok part

-- The loop over the parts, which pushes each on the path.
unfoldable pub push_parts : FilePath → List Text → Sanitized FilePath
unfolding check_part
push_parts out [] = ok out
push_parts out (part ∷ parts) = check_part part >>= λ p. push_parts (out ++ (p ∷ [])) parts

-- `Path::starts_with`
unfoldable pub starts_with : FilePath → FilePath → Bool
starts_with path [] = true
starts_with [] (d ∷ ds) = false
starts_with (p ∷ ps) (d ∷ ds) = text_eq p d && starts_with ps ds

unfoldable pub sanitize_one : Text → FilePath → Sanitized FilePath
unfolding push_parts starts_with
sanitize_one [] dest = err empty
sanitize_one (c ∷ cs) dest = do
  out ← push_parts dest (split b'/' (c ∷ cs))
  if starts_with out dest then ok out else err escapes

module _ (lower : Text → Text) where
  unfoldable pub sanitize_from : List Text → List FileEntry → FilePath → Sanitized (List FilePath)
  unfolding sanitize_one
  sanitize_from seen [] dest = ok []
  sanitize_from seen (e ∷ es) dest = do
    path ← sanitize_one e.path dest
    if any (λ s. text_eq s (lower e.path)) seen
        then err duplicate
        else (sanitize_from (lower e.path ∷ seen) es dest >>= λ paths. ok (path ∷ paths))

  unfoldable pub sanitize_manifest : List FileEntry → FilePath → Sanitized (List FilePath)
  unfolding sanitize_from
  sanitize_manifest entries dest = sanitize_from [] entries dest

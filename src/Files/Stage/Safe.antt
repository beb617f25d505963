-- ===== src/Files/Stage/Safe.antt =====
-- Where the checked names of stage.rs lead.
use geser_desk.Prelude.{
  append_assoc, append_nil, ℕ, ◌≤◌, Bool, true, false, ◌||◌, List, [], ◌∷◌, ◌++◌, any, ltb, ◌==◌,
  arith, ◌≡◌, ◌≢◌, refl, ap, sym, ◌∙◌, inl, inr, Bool-cases, All, if◌then◌else◌, map,
}
use geser_desk.Files.{Text, FilePath, FileEntry}
use geser_desk.Files.Stage.{
  SanitizeError, escapes, duplicate, too_long, reserved_name, Sanitized, ok, err, ◌>>=◌, text_eq,
  split, onto_first, is_control, utf8_len, ends_with, stem, is_reserved, is_odd, check_part,
  push_parts, starts_with, sanitize_one, sanitize_from, sanitize_manifest,
}

pub record IsSafeName (t : Text) : Type 0 where
  pub not_empty : t ≢ []
  pub not_here : t ≢ b'.' ∷ []
  pub not_up : t ≢ b'.' ∷ b'.' ∷ []
  pub no_separator : All (λ c. (c ≢ b'/') × (c ≢ b'\\') × (c ≢ b':') × (is_control c ≡ false)) t
  pub short : utf8_len t ≤ 255
  pub no_dot_at_end : ends_with b'.' t ≡ false
  pub no_space_at_end : ends_with b' ' t ≡ false
  pub not_reserved : is_reserved (stem t) ≡ false

text_eq_refl : (t : Text) → text_eq t t ≡ true
text_eq_refl [] = refl
text_eq_refl (c ∷ cs) = ground (arith, text_eq_refl cs)

ne_of_text_eq : (s t : Text) → text_eq s t ≡ false → s ≢ t
ne_of_text_eq s t h e = cc (text_eq_refl t, rw e at h)

parts_of_onto_first :
    (s c : ℕ) (ps : List Text)
    → c ≢ s
    → All (λ p. All (λ x. x ≢ s) p) ps
    → All (λ p. All (λ x. x ≢ s) p) (onto_first c ps)
parts_of_onto_first s c [] h a = ((h, tt), tt)
parts_of_onto_first s c (p ∷ ps) h a = ((h, a.0), a.1)

-- The parts hold no separator.
All-split : (s : ℕ) (t : Text) → All (λ p. All (λ x. x ≢ s) p) (split s t)
unfolding split
All-split s [] = (tt, tt)
All-split s (c ∷ cs) = elim (Bool-cases (c == s)) [
  | inl t ↦ rw t (tt, All-split s cs)
  | inr f ↦ rw f (parts_of_onto_first s c (split s cs) (ground (arith, f)) (All-split s cs))
]

no_odd :
    (t : Text)
    → is_odd t ≡ false
    → All (λ x. x ≢ b'/') t
    → All (λ c. (c ≢ b'/') × (c ≢ b'\\') × (c ≢ b':') × (is_control c ≡ false)) t
unfolding is_odd any
no_odd [] h a = tt
no_odd (c ∷ cs) h a = (
  (a.0, ground (arith, h), ground (arith, h), ground (arith, h)),
  no_odd cs (ground (arith, h)) a.1,
)

guard_passed :
    {A : Type 0} (b : Bool) (e : SanitizeError) (x : Sanitized A) {a : A}
    → (if b then err e else x) ≡ ok a
    → (b ≡ false) × (x ≡ ok a)
guard_passed true e x h = cc
guard_passed false e x h = (refl, h)

-- A part that passes the tests.
check_part-IsSafeName :
    (part out : Text)
    → All (λ x. x ≢ b'/') part
    → check_part part ≡ ok out
    → (out ≡ part) × IsSafeName part
unfolding check_part
check_part-IsSafeName part out a h =
    let named_test =
      text_eq part [] || text_eq part (b'.' ∷ []) || text_eq part (b'.' ∷ b'.' ∷ []) in
    let end_test = ends_with b'.' part || ends_with b' ' part in
    let (named, rest) = guard_passed named_test escapes _ h in
    let (odd, rest') = guard_passed (is_odd part) escapes _ rest in
    let (long, after) = guard_passed (ltb 255 (utf8_len part)) too_long _ rest' in
    let (ending, after') = guard_passed end_test reserved_name _ after in
    let (reserved, done) = guard_passed (is_reserved (stem part)) reserved_name (ok part) after' in
    (
      cc done,
      record {
        not_empty = ne_of_text_eq part [] (ground (arith, named));
        not_here = ne_of_text_eq part (b'.' ∷ []) (ground (arith, named));
        not_up = ne_of_text_eq part (b'.' ∷ b'.' ∷ []) (ground (arith, named));
        no_separator = no_odd part odd a;
        short = ground (arith, long);
        no_dot_at_end = ground (arith, ending);
        no_space_at_end = ground (arith, ending);
        not_reserved = reserved;
      },
    )

-- A check that is passed, and what comes after it.
passed_first :
    {A B : Type 0} (check : Sanitized A) (next : A → Sanitized B) {last : B}
    → check >>= next ≡ ok last
    → (first : A) × (check ≡ ok first) × (next first ≡ ok last)
passed_first (err problem) next accepted = cc
passed_first (ok first) next accepted = (first, refl, accepted)

push_parts-IsSafeName :
    (dest out : FilePath) (parts : List Text)
    → All (λ p. All (λ x. x ≢ b'/') p) parts
    → push_parts dest parts ≡ ok out
    → (out ≡ dest ++ parts) × All IsSafeName parts
unfolding push_parts
push_parts-IsSafeName dest out [] a h = (cc (h, append_nil dest), tt)
push_parts-IsSafeName dest out (p ∷ ps) a h =
    let (q, checked, later) = passed_first (check_part p) _ h in
    let (same, safe) = check_part-IsSafeName p q a.0 checked in
    let (rest, all) = push_parts-IsSafeName (dest ++ (q ∷ [])) out ps a.1 later in
    (rest ∙ append_assoc dest (q ∷ []) ps ∙ ap (λ x. dest ++ (x ∷ ps)) same, (safe, all))

-- Where one name leads, when it is accepted.
abbrev pub place : FilePath → Text → FilePath
place dest rel = dest ++ split b'/' rel

sanitize_one-IsSafeName :
    (rel : Text) (dest out : FilePath)
    → sanitize_one rel dest ≡ ok out
    → (out ≡ place dest rel) × All IsSafeName (split b'/' rel)
unfolding sanitize_one
sanitize_one-IsSafeName [] dest out h = cc
sanitize_one-IsSafeName (c ∷ cs) dest out h =
    let (path, pushed, inside) = passed_first (push_parts dest (split b'/' (c ∷ cs))) _ h in
    let (same, safe) = push_parts-IsSafeName dest path _ (All-split b'/' (c ∷ cs)) pushed in
    (in_place path inside ∙ same, safe)
  where
    in_place :
        (path : FilePath)
        → (if starts_with path dest then ok path else err SanitizeError.escapes) ≡ ok out
        → out ≡ path
    in_place path e = elim (Bool-cases (starts_with path dest)) [
      | inl t ↦ cc (rw t at e)
      | inr f ↦ cc (rw f at e)
    ]

-- The parts and the separators between them give the text back.
abbrev join : ℕ → List Text → Text
join s [] = []
join s (p ∷ []) = p
join s (p ∷ q ∷ ps) = p ++ (s ∷ join s (q ∷ ps))

join-onto_first :
    (s c : ℕ) (p : Text) (ps : List Text) → join s (onto_first c (p ∷ ps)) ≡ c ∷ join s (p ∷ ps)
join-onto_first s c p [] = refl
join-onto_first s c p (q ∷ ps) = refl

split-cons : (s : ℕ) (t : Text) → (p : Text) × (ps : List Text) × (split s t ≡ p ∷ ps)
unfolding split
split-cons s [] = ([], [], refl)
split-cons s (c ∷ cs) = elim (Bool-cases (c == s)) [
  | inl t ↦ ([], split s cs, rw t refl)
  | inr f ↦ let (p, ps, e) = split-cons s cs in (c ∷ p, ps, rw (f, e) refl)
]

join-split : (s : ℕ) (t : Text) → join s (split s t) ≡ t
unfolding split
join-split s [] = refl
join-split s (c ∷ cs) =
    let (p, ps, e) = split-cons s cs in
    let later : join s (p ∷ ps) ≡ cs = ap (join s) (sym e) ∙ join-split s cs in
    elim (Bool-cases (c == s)) [
      | inl t ↦ let same : c ≡ s = ground (arith, t) in rw (t, e) (cc (later, same))
      | inr f ↦ rw (f, e) (join-onto_first s c p ps ∙ ap (λ (x : Text). c ∷ x) later)
    ]

append_cancel : (xs ys zs : FilePath) → xs ++ ys ≡ xs ++ zs → ys ≡ zs
append_cancel [] ys zs e = e
append_cancel (x ∷ xs) ys zs e = append_cancel xs ys zs (cc e)

-- Two names lead to one place only if they are the same.
place-injective : (dest : FilePath) (a b : Text) → place dest a ≡ place dest b → a ≡ b
place-injective dest a b e =
    sym (join-split b'/' a) ∙ ap (join b'/') (append_cancel dest _ _ e) ∙ join-split b'/' b

abbrev pub IsDistinct : List FilePath → Type 0
IsDistinct [] = Unit
IsDistinct (p ∷ ps) = All (λ q. p ≢ q) ps × IsDistinct ps

module _ (lower : Text → Text) where
  -- What is accepted: each path is in its place, its name safe, and new to the names seen.
  abbrev New : List Text → List FileEntry → Type 0
  New seen es = All (λ e. any (λ s. text_eq s (lower e.path)) seen ≡ false) es

  New-tail : (s : Text) (seen : List Text) (es : List FileEntry) → New (s ∷ seen) es → New seen es
  unfolding any
  New-tail s seen [] a = tt
  New-tail s seen (e ∷ es) a = (ground (arith, a), New-tail s seen es a.1)

  others :
      (dest : FilePath) (e : FileEntry) (seen : List Text) (es : List FileEntry)
      → New (lower e.path ∷ seen) es
      → All (λ q. place dest e.path ≢ q) (map (λ x. place dest x.path) es)
  unfolding any
  others dest e seen [] a = tt
  others dest e seen (x ∷ xs) a = (
    λ same. cc (text_eq_refl (lower e.path), rw (← place-injective dest e.path x.path same) at a.0),
    others dest e seen xs a.1,
  )

  abbrev Accepted : FilePath → List Text → List FileEntry → List FilePath → Type 0
  Accepted dest seen es paths =
      (paths ≡ map (λ e. place dest e.path) es)
      × All (λ e. All IsSafeName (split b'/' e.path)) es
      × IsDistinct (map (λ e. place dest e.path) es)
      × New seen es

  sanitize_from-Accepted :
      (seen : List Text) (es : List FileEntry) (dest : FilePath) (paths : List FilePath)
      → sanitize_from lower seen es dest ≡ ok paths
      → Accepted dest seen es paths
  unfolding sanitize_from
  sanitize_from-Accepted seen [] dest paths h = (cc h, tt, tt, tt)
  sanitize_from-Accepted seen (e ∷ es) dest paths h =
      let (path, one, later) = passed_first (sanitize_one e.path dest) _ h in
      let (same, safe) = sanitize_one-IsSafeName e.path dest path one in
      let (fresh, rest) =
        guard_passed (any (λ s. text_eq s (lower e.path)) seen) duplicate _ later in
      let (ps, more, done) =
        passed_first (sanitize_from lower (lower e.path ∷ seen) es dest) _ rest in
      let (places, all, distinct, new) =
        sanitize_from-Accepted (lower e.path ∷ seen) es dest ps more in
      (
        cc (done, same, places),
        (safe, all),
        (others dest e seen es new, distinct),
        (fresh, New-tail (lower e.path) seen es new),
      )

  -- When a copy's names are accepted, each entry leads to `dest` followed by the parts of its own name;
  -- every part is a safe name, and no two entries lead to the same place.
  pub sanitize_manifest-IsSafeName :
      (es : List FileEntry) (dest : FilePath) (paths : List FilePath)
      → sanitize_manifest lower es dest ≡ ok paths
      → (paths ≡ map (λ e. place dest e.path) es)
        × All (λ e. All IsSafeName (split b'/' e.path)) es
        × IsDistinct paths
  unfolding sanitize_manifest
  sanitize_manifest-IsSafeName es dest paths h =
      let (places, all, distinct, _) = sanitize_from-Accepted [] es dest paths h in
      (places, all, rw places distinct)

-- ===== src/Sync/Echo.antt =====
-- The polls of sync.rs: a copy is offered once, and what came from a peer never.
use geser_desk.Prelude.{
  ℕ, ◌≤◌, Bool, true, false, List, [], ◌∷◌, Option, none, some, arith, ◌≡◌, refl, sym, subst, ap,
  ◌∙◌, ◌⊎◌, inl, inr, Bool-cases, length, All,
}
use geser_desk.Content.{ClipboardContent, holds_nothing}
use geser_desk.Files.{FilePath, FileManifest}
use geser_desk.Sync.{
  Got, nothing, failed, got, Clipboard, Inner, same, unchanged, fit, offer, offered, looked, poll,
  apply, or_else, id_of,
}

module _ (is_utf8 : List ℕ → Bool) (reads_files : List ℕ → Option FileManifest) where
  module _ (fingerprint : ClipboardContent → ℕ) (fingerprint_paths : List FilePath → ℕ) {S : Type 0}
      (os : Clipboard S) where
    abbrev polled : Inner → S → ℕ → Inner × Option ClipboardContent
    polled = poll is_utf8 reads_files fingerprint fingerprint_paths os

    -- What the clipboard holds has been seen.
    abbrev Known : Inner → Got ClipboardContent → Type 0
    Known i g = (c : ClipboardContent) → g ≡ got c → i.seen ≡ some (fingerprint c)

    abbrev with_report : Option ClipboardContent → List ClipboardContent → List ClipboardContent
    with_report none rest = rest
    with_report (some c) rest = c ∷ rest

    -- What one poll after the other reports.
    unfoldable pub reports : Inner → List S → ℕ → List ClipboardContent
    unfolding poll
    reports i [] max_bytes = []
    reports i (s ∷ ss) max_bytes =
        let now = polled i s max_bytes in
        let rest = reports (now.0) ss max_bytes in with_report (now.1) rest

    abbrev held_in : ClipboardContent → Got ClipboardContent → ClipboardContent
    held_in c nothing = c
    held_in c failed = c
    held_in c (got d) = d

    same_refl : (o : Option ℕ) → same o o ≡ true
    same_refl none = refl
    same_refl (some a) = ground arith

    offer_known :
        (i : Inner) (c : ClipboardContent) (max_bytes : ℕ)
        → i.seen ≡ some (fingerprint c)
        → offer is_utf8 reads_files fingerprint fingerprint_paths os i c max_bytes ≡ (i, none)
    unfolding offer
    offer_known i c max_bytes seen =
        let known : same i.seen (some (fingerprint c)) ≡ true =
          ap (λ o. same o (some (fingerprint c))) seen ∙ same_refl (some (fingerprint c)) in
        rw (offer, known) refl

    same_eq : (o : Option ℕ) (n : ℕ) → same o (some n) ≡ true → o ≡ some n
    same_eq none n e = cc
    same_eq (some a) n e = ap some (ground (arith, e))

    offered_sees :
        (i : Inner) (id : ℕ) (empty : Bool) (o : Option ClipboardContent)
        → (offered is_utf8 reads_files fingerprint fingerprint_paths os i id empty o).0.seen
          ≡ i.seen
    offered_sees i id true o = refl
    offered_sees i id false none = refl
    offered_sees i id false (some c) = refl

    offer_sees :
        (i : Inner) (c : ClipboardContent) (max_bytes : ℕ)
        → (offer is_utf8 reads_files fingerprint fingerprint_paths os i c max_bytes).0.seen
          ≡ some (fingerprint c)
    unfolding offer
    offer_sees i c max_bytes = elim (Bool-cases (same i.seen (some (fingerprint c)))) [
      | inl t ↦ rw (offer, t) (same_eq i.seen (fingerprint c) t)
      | inr f ↦
          let seen =
            offered_sees (record i { seen = some (fingerprint c) }) (fingerprint c)
              (holds_nothing is_utf8 reads_files c) (fit is_utf8 reads_files c max_bytes) in
          rw (offer, f) seen
    ]

    looked-Known :
        (i : Inner) (g : Got ClipboardContent) (max_bytes : ℕ)
        → Known i g
        → looked is_utf8 reads_files fingerprint fingerprint_paths os i g max_bytes ≡ (i, none)
    unfolding looked
    looked-Known i nothing max_bytes known = refl
    looked-Known i failed max_bytes known = refl
    looked-Known i (got c) max_bytes known = offer_known i c max_bytes (known c refl)

    looked_sees :
        (i : Inner) (g : Got ClipboardContent) (max_bytes : ℕ)
        → Known ((looked is_utf8 reads_files fingerprint fingerprint_paths os i g max_bytes).0) g
    unfolding looked
    looked_sees i nothing max_bytes c e = cc
    looked_sees i failed max_bytes c e = cc
    looked_sees i (got d) max_bytes c e =
        offer_sees i d max_bytes ∙ ap (λ g. some (fingerprint (held_in d g))) e

    -- A poll that finds what is known says nothing, and it stays known.
    poll-Known :
        (i : Inner) (s : S) (max_bytes : ℕ)
        → Known i (os.get s)
        → ((polled i s max_bytes).1 ≡ none) × ((polled i s max_bytes).0.seen ≡ i.seen)
    unfolding poll
    poll-Known i s max_bytes known = elim (Bool-cases (unchanged (os.change_count s) i.count)) [
      | inl t ↦ rw (poll, t) (refl, refl)
      | inr f ↦
          let silent =
            looked-Known (record i { count = os.change_count s }) (os.get s) max_bytes known in
          rw (poll, f) (rw silent (refl, refl))
    ]

    -- A poll does not look, or knows afterwards what it found.
    poll_cases :
        (i : Inner) (s : S) (max_bytes : ℕ)
        → (polled i s max_bytes ≡ (i, none)) ⊎ Known ((polled i s max_bytes).0) (os.get s)
    unfolding poll
    poll_cases i s max_bytes = elim (Bool-cases (unchanged (os.change_count s) i.count)) [
      | inl t ↦ inl (rw (poll, t) refl)
      | inr f ↦
          inr (
            rw (poll, f)
              (looked_sees (record i { count = os.change_count s }) (os.get s) max_bytes))
    ]

    reports_silent :
        (i : Inner) (g : Got ClipboardContent) (ss : List S) (max_bytes : ℕ)
        → Known i g
        → All (λ s. os.get s ≡ g) ss
        → reports i ss max_bytes ≡ []
    unfolding reports
    reports_silent i g [] max_bytes known all_same = refl
    reports_silent i g (s ∷ ss) max_bytes known all_same =
        let (silent, seen) = poll-Known i s max_bytes (λ c e. known c (sym (all_same.0) ∙ e)) in
        let later =
          reports_silent ((polled i s max_bytes).0) g ss max_bytes (λ c e. seen ∙ known c e)
            (all_same.1) in
        ap (λ o. with_report o (reports ((polled i s max_bytes).0) ss max_bytes)) silent ∙ later

    one_report : (o : Option ClipboardContent) → length (with_report o []) ≤ 1
    one_report none = omega arith
    one_report (some c) = omega arith

    -- A copy is shared at most once, however often the clipboard is looked at: as long as it holds the same,
    -- all polls together report at most one contents.
    pub reports_once :
        (i : Inner) (g : Got ClipboardContent) (ss : List S) (max_bytes : ℕ)
        → All (λ s. os.get s ≡ g) ss
        → length (reports i ss max_bytes) ≤ 1
    unfolding reports
    reports_once i g [] max_bytes all_same = omega arith
    reports_once i g (s ∷ ss) max_bytes all_same = elim (poll_cases i s max_bytes) [
      | inl skipped ↦
          let later = reports_once i g ss max_bytes (all_same.1) in
          subst (λ x. length (with_report (x.1) (reports (x.0) ss max_bytes)) ≤ 1) (sym skipped)
            later
      | inr known ↦
          let later =
            reports_silent ((polled i s max_bytes).0) g ss max_bytes
              (λ c e. known c (all_same.0 ∙ e)) (all_same.1) in
          subst (λ l. length (with_report ((polled i s max_bytes).1) l) ≤ 1) (sym later)
            (one_report ((polled i s max_bytes).1))
    ]

    -- A write that succeeds knows what the clipboard then holds.
    apply_knows :
        (i : Inner) (s : S) (c : ClipboardContent)
        → let (i', s', ok) = apply is_utf8 reads_files fingerprint fingerprint_paths os i s c in
          ok ≡ true → Known i' (os.get s')
    unfolding apply
    apply_knows i s c ok = elim (Bool-cases (os.set s c).1) [
      | inl t ↦
          rw (apply, t)
            (λ d e.
              ap
                (λ g. some (
                  or_else is_utf8 reads_files fingerprint fingerprint_paths os
                    (id_of is_utf8 reads_files fingerprint fingerprint_paths os g) (fingerprint c)))
                e)
      | inr f ↦ cc (rw (apply, f) at ok)
    ]

    -- What came from a peer is never sent back: after a successful write of a peer's contents, no poll reports
    -- anything as long as the clipboard holds what it held right after the write, also where the system hands
    -- it back changed.
    pub reports-apply :
        (i : Inner) (s : S) (c : ClipboardContent) (ss : List S) (max_bytes : ℕ)
        → let (i', s', ok) = apply is_utf8 reads_files fingerprint fingerprint_paths os i s c in
          ok ≡ true → All (λ x. os.get x ≡ os.get s') ss → reports i' ss max_bytes ≡ []
    reports-apply i s c ss max_bytes ok all_same =
        let (i', s', _) = apply is_utf8 reads_files fingerprint fingerprint_paths os i s c in
        reports_silent i' (os.get s') ss max_bytes (apply_knows i s c ok) all_same

-- ===== src/Client/Inject/Held.antt =====
-- What the sink of inject.rs keeps as held, and what each of its requests changes of it.
use geser_desk.Prelude.{
  ℕ, ◌==◌, ℤ, Bool, true, false, not, List, [], ◌∷◌, some, keep, arith, ◌≡◌, ◌≢◌, refl, sym, subst,
  ◌∙◌, ◌⊎◌, inl, inr, Bool-cases, Option-cases, some_eq, if◌then◌else◌,
}
use geser_desk.Input.{Button}
use geser_desk.Client.Inject.Keys.{Key}
use geser_desk.Client.Inject.{
  SystemButton, Axis, Act, press, release, click, button_press, button_release, move_abs, move_rel,
  scroll, EnigoSink, map_button, encode_button, decode_button, inject, held_at, let_go, set_put,
  set_remove, press_key, release_key, press_button, release_button,
}

-- Whether the system has a key down, from what it was asked, the newest first. A click ends with a release.
abbrev pub KeyDown : Key → List Act → Type 0
KeyDown k [] = ⊥
KeyDown k (press j ∷ acts) = (j ≡ k) ⊎ KeyDown k acts
KeyDown k (release j ∷ acts) = (j ≢ k) × KeyDown k acts
KeyDown k (click j ∷ acts) = (j ≢ k) × KeyDown k acts
KeyDown k (button_press b ∷ acts) = KeyDown k acts
KeyDown k (button_release b ∷ acts) = KeyDown k acts
KeyDown k (move_abs x y ∷ acts) = KeyDown k acts
KeyDown k (move_rel x y ∷ acts) = KeyDown k acts
KeyDown k (scroll n axis ∷ acts) = KeyDown k acts

abbrev pub ButtonDown : SystemButton → List Act → Type 0
ButtonDown b [] = ⊥
ButtonDown b (press j ∷ acts) = ButtonDown b acts
ButtonDown b (release j ∷ acts) = ButtonDown b acts
ButtonDown b (click j ∷ acts) = ButtonDown b acts
ButtonDown b (button_press c ∷ acts) = (c ≡ b) ⊎ ButtonDown b acts
ButtonDown b (button_release c ∷ acts) = (c ≢ b) × ButtonDown b acts
ButtonDown b (move_abs x y ∷ acts) = ButtonDown b acts
ButtonDown b (move_rel x y ∷ acts) = ButtonDown b acts
ButtonDown b (scroll n axis ∷ acts) = ButtonDown b acts

abbrev pub Held : Key → List (ℕ × Key) → Type 0
Held k [] = ⊥
Held k ((hid, j) ∷ rest) = (j ≡ k) ⊎ Held k rest

abbrev pub HeldButton : SystemButton → List ℕ → Type 0
HeldButton b [] = ⊥
HeldButton b (code ∷ rest) = (map_button (decode_button code) ≡ b) ⊎ HeldButton b rest

-- What is down is held.
pub record IsHeld (s : EnigoSink) : Type 0 where
  pub keys : (k : Key) → KeyDown k s.acts → Held k s.held_keys
  pub buttons : (b : SystemButton) → ButtonDown b s.acts → HeldButton b s.held_buttons

pub held_at-Held :
    (hid : ℕ) (held : List (ℕ × Key)) {k : Key} → held_at hid held ≡ some k → Held k held
unfolding held_at
held_at-Held hid [] found = cc
held_at-Held hid ((at, j) ∷ rest) found = elim (Bool-cases (at == hid)) [
  | inl t ↦ inl (some_eq (rw t at found))
  | inr f ↦ inr (held_at-Held hid rest (rw f at found))
]

pub let_go-Held :
    (hid : ℕ) (held : List (ℕ × Key)) {j k : Key}
    → held_at hid held ≡ some j
    → j ≢ k
    → Held k held
    → Held k (let_go hid held)
unfolding held_at let_go
let_go-Held hid [] found other h = h
let_go-Held hid ((at, i) ∷ rest) {j} {k} found other h = elim (Bool-cases (at == hid)) [
  | inl t ↦
      rw (let_go, t)
        (elim h [ inl e ↦ elim (other (sym (some_eq (rw t at found)) ∙ e)) [ ] | inr h' ↦ h' ])
  | inr f ↦
      rw (let_go, f)
        (elim h [ inl e ↦ inl e | inr h' ↦ inr (let_go-Held hid rest (rw f at found) other h') ])
]

pub map_button-decode : (b : Button) → map_button (decode_button (encode_button b)) ≡ map_button b
unfolding decode_button
map_button-decode Button.left = refl
map_button-decode Button.middle = refl
map_button-decode Button.right = refl
map_button-decode Button.back = refl
map_button-decode Button.forward = refl
map_button-decode (Button.extra n) = ground arith

pub keep-HeldButton :
    (code : ℕ) (codes : List ℕ) {b : SystemButton}
    → HeldButton b codes
    → (map_button (decode_button code) ≡ b) ⊎ HeldButton b (keep (λ c. not (c == code)) codes)
unfolding keep
keep-HeldButton code [] h = elim h [ ]
keep-HeldButton code (c ∷ codes) {b} h = elim (Bool-cases (c == code)) [
  | inl t ↦
      let same : c ≡ code = ground (arith, t) in
      elim h [
        | inl e ↦ inl (subst (λ x. map_button (decode_button x) ≡ b) same e)
        | inr h' ↦ elim (keep-HeldButton code codes h') [
          | inl e ↦ inl e
          | inr kept ↦ inr (rw t kept)
        ]
      ]
  | inr f ↦ elim h [
    | inl e ↦ inr (rw f (inl e))
    | inr h' ↦ elim (keep-HeldButton code codes h') [
      | inl e ↦ inl e
      | inr kept ↦ inr (rw f (inr kept))
    ]
  ]
]

pub press_key-IsHeld : (s : EnigoSink) (hid : ℕ) (k : Key) → IsHeld s → IsHeld (press_key s hid k)
unfolding press_key
press_key-IsHeld s hid k held = elim (Option-cases (held_at hid s.held_keys)) [
  | inl absent ↦
      rw (press_key, absent)
        record {
          keys = λ j down. elim down [ inl e ↦ inl e | inr d ↦ inr (held.keys j d) ];
          buttons = held.buttons;
        }
  | inr (before, found) ↦
      rw (press_key, found)
        record {
          keys = λ j down. elim down [
            | inl e ↦ subst (λ x. Held x s.held_keys) e (held_at-Held hid s.held_keys found)
            | inr d ↦ held.keys j d
          ];
          buttons = held.buttons;
        }
]

pub release_key-IsHeld : (s : EnigoSink) (hid : ℕ) → IsHeld s → IsHeld (release_key s hid)
unfolding release_key
release_key-IsHeld s hid held = elim (Option-cases (held_at hid s.held_keys)) [
  | inl absent ↦ rw (release_key, absent) held
  | inr (k, found) ↦
      rw (release_key, found)
        record {
          keys = λ j down. let_go-Held hid s.held_keys found down.0 (held.keys j down.1);
          buttons = held.buttons;
        }
]

pub press_button-IsHeld : (s : EnigoSink) (b : Button) → IsHeld s → IsHeld (press_button s b)
unfolding press_button set_put
press_button-IsHeld s b held = record {
  keys = held.keys;
  buttons = λ c down. elim down [
    | inl e ↦ inl (map_button-decode b ∙ e)
    | inr d ↦ keep-HeldButton (encode_button b) s.held_buttons (held.buttons c d)
  ];
}

pub release_button-IsHeld : (s : EnigoSink) (b : Button) → IsHeld s → IsHeld (release_button s b)
unfolding release_button set_remove
release_button-IsHeld s b held = record {
  keys = held.keys;
  buttons = λ c down.
      elim (keep-HeldButton (encode_button b) s.held_buttons (held.buttons c down.1)) [
        | inl e ↦ elim (down.0 (sym (map_button-decode b) ∙ e)) [ ]
        | inr kept ↦ kept
      ];
}

pub if-IsHeld : {s s' : EnigoSink} (b : Bool) → IsHeld s → IsHeld s' → IsHeld (if b then s else s')
if-IsHeld true held held' = held
if-IsHeld false held held' = held'

-- Requests that press nothing, and those that release.
pub other-IsHeld :
    (s : EnigoSink) (n m : ℤ)
    → IsHeld s
    → IsHeld (inject s (move_abs n m)) × IsHeld (inject s (move_rel n m))
other-IsHeld s n m held = (
  record { keys = held.keys; buttons = held.buttons },
  record { keys = held.keys; buttons = held.buttons },
)

pub scroll-IsHeld :
    (s : EnigoSink) (n : ℤ) (axis : Axis) → IsHeld s → IsHeld (inject s (scroll n axis))
scroll-IsHeld s n axis held = record { keys = held.keys; buttons = held.buttons }

pub click-IsHeld : (s : EnigoSink) (k : Key) → IsHeld s → IsHeld (inject s (click k))
click-IsHeld s k held = record { keys = λ j down. held.keys j down.1; buttons = held.buttons }

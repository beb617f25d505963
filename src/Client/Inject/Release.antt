-- ===== src/Client/Inject/Release.antt =====
-- `leave` of inject.rs after any events.
use geser_desk.Prelude.{
  ℕ, ℤ, Bool, true, false, not, ◌&&◌, ◌||◌, sub_i32, pos, List, [], ◌∷◌, ◌++◌, map, inl, inr,
  Option-cases, if◌then◌else◌,
}
use geser_desk.Geometry.{Point}
use geser_desk.Input.{KeyAction, KeyEvent, MouseEvent}
use geser_desk.Client.Inject.Keys as K
use geser_desk.Client.Inject.Keys.{Key, System, SetUp}
use geser_desk.Client.Inject.{
  SystemButton, Act, release, button_release, scroll, Layout, EnigoSink, new, with_perform,
  map_button, decode_button, inject, enter, leave, key_down, key, wheel, mouse, key_on, key_of,
  os_key, typed_whole, is_zero, notches, horizontal, vertical,
}
use geser_desk.Client.Inject.Held.{
  ButtonDown, Held, HeldButton, IsHeld, KeyDown, click-IsHeld, if-IsHeld, other-IsHeld,
  press_button-IsHeld, press_key-IsHeld, release_button-IsHeld, release_key-IsHeld, scroll-IsHeld,
}

-- The requests of `leave`, one list after the other.
after_buttons :
    (codes : List ℕ) (acts : List Act)
    → let all = map (λ c. button_release (map_button (decode_button c))) codes ++ acts in
      ((k : Key) → KeyDown k all → KeyDown k acts)
      × ((b : SystemButton) → ButtonDown b all → HeldButton b codes → ⊥)
      × ((b : SystemButton) → ButtonDown b all → ButtonDown b acts)
after_buttons [] acts = (λ k d. d, λ b d h. h, λ b d. d)
after_buttons (c ∷ codes) acts =
    let (keys, none_held, buttons) = after_buttons codes acts in
    (
      keys,
      λ b d h. elim h [ inl e ↦ d.0 e | inr h' ↦ none_held b (d.1) h' ],
      λ b d. buttons b (d.1),
    )

after_keys :
    (held : List (ℕ × Key)) (acts : List Act)
    → let all = map (λ h. release (h.1)) held ++ acts in
      ((b : SystemButton) → ButtonDown b all → ButtonDown b acts)
      × ((k : Key) → KeyDown k all → Held k held → ⊥)
      × ((k : Key) → KeyDown k all → KeyDown k acts)
after_keys [] acts = (λ b d. d, λ k d h. h, λ k d. d)
after_keys ((hid, j) ∷ held) acts =
    let (buttons, none_held, keys) = after_keys held acts in
    (
      buttons,
      λ k d h. elim h [ inl e ↦ d.0 e | inr h' ↦ none_held k (d.1) h' ],
      λ k d. keys k (d.1),
    )

leave_lem :
    (s : EnigoSink)
    → IsHeld s
    → ((k : Key) → ¬ KeyDown k (leave s).acts)
      × ((b : SystemButton) → ¬ ButtonDown b (leave s).acts)
unfolding leave
leave_lem s held =
    let released = map (λ h. release (h.1)) s.held_keys ++ s.acts in
    let (keys, none_held, buttons) = after_buttons s.held_buttons released in
    let (buttons', no_key, keys') = after_keys s.held_keys s.acts in
    (
      λ k d. no_key k (keys k d) (held.keys k (keys' k (keys k d))),
      λ b d. none_held b d (held.buttons b (buttons' b (buttons b d))),
    )

leave-IsHeld : (s : EnigoSink) → IsHeld s → IsHeld (leave s)
leave-IsHeld s held = record {
  keys = λ k d. elim ((leave_lem s held).0 k d) [ ];
  buttons = λ b d. elim ((leave_lem s held).1 b d) [ ];
}

-- What happens to the sink.
pub data Event : Type 0 where
  enters : Point → Event
  leaves : Event
  keyed : KeyEvent → Event
  moused : MouseEvent → Event
  set_up : SetUp → Event

module _ (system : System) (layout : Layout) (takes : Act → Bool) where
  key_down-IsHeld :
      (s : EnigoSink) (ev : KeyEvent) → IsHeld s → IsHeld (key_down system layout takes s ev)
  unfolding key_down
  key_down-IsHeld s ev held =
      elim (Option-cases (key_of system layout takes ev (K.resolve s.perform ev.hid))) [
        | inl absent ↦ rw (key_down, absent) held
        | inr (k, found) ↦
            let k' = os_key system layout takes k in
            rw (key_down, found)
              (if-IsHeld (typed_whole system layout takes k') (click-IsHeld s k' held)
                (press_key-IsHeld s ev.hid k' held))
      ]

  key_on-IsHeld :
      (s : EnigoSink) (ev : KeyEvent) (action : KeyAction)
      → IsHeld s
      → IsHeld (key_on system layout takes s ev action)
  unfolding key_on
  key_on-IsHeld s ev KeyAction.down held = key_down-IsHeld s ev held
  key_on-IsHeld s ev (KeyAction.repeats n) held = key_down-IsHeld s ev held
  key_on-IsHeld s ev KeyAction.up held = release_key-IsHeld s ev.hid held

  wheel-IsHeld : (s : EnigoSink) (dx dy : ℤ) → IsHeld s → IsHeld (wheel system layout takes s dx dy)
  unfolding wheel
  wheel-IsHeld s dx dy held =
      let across : Act = scroll (notches dx) horizontal in
      let s' = if is_zero system layout takes dx then s else inject s across in
      let held' : IsHeld s' =
        if-IsHeld (is_zero system layout takes dx) held
          (scroll-IsHeld s (notches dx) horizontal held) in
      if-IsHeld
        (not (is_zero system layout takes dy) && (is_zero system layout takes dx || takes across))
        (scroll-IsHeld s' (sub_i32 (pos 0) (notches dy)) vertical held') held'

  mouse-IsHeld :
      (s : EnigoSink) (ev : MouseEvent) → IsHeld s → IsHeld (mouse system layout takes s ev)
  unfolding mouse
  mouse-IsHeld s (MouseEvent.move_abs x y) held = (other-IsHeld s x y held).0
  mouse-IsHeld s (MouseEvent.move_rel x y) held = (other-IsHeld s x y held).1
  mouse-IsHeld s (MouseEvent.button b true) held = press_button-IsHeld s b held
  mouse-IsHeld s (MouseEvent.button b false) held = release_button-IsHeld s b held
  mouse-IsHeld s (MouseEvent.wheel dx dy) held = wheel-IsHeld s dx dy held

  unfoldable pub happens : EnigoSink → Event → EnigoSink
  unfolding enter leave key mouse with_perform
  happens s (enters at) = enter s at
  happens s leaves = leave s
  happens s (keyed ev) = key system layout takes s ev
  happens s (moused ev) = mouse system layout takes s ev
  happens s (set_up perform) = with_perform s perform

  unfoldable pub happen : EnigoSink → List Event → EnigoSink
  unfolding happens
  happen s [] = s
  happen s (ev ∷ evs) = happen (happens s ev) evs

  happens-IsHeld : (s : EnigoSink) (ev : Event) → IsHeld s → IsHeld (happens s ev)
  unfolding happens enter with_perform key
  happens-IsHeld s (enters at) held = (other-IsHeld s at.x at.y held).0
  happens-IsHeld s leaves held = leave-IsHeld s held
  happens-IsHeld s (keyed ev) held = key_on-IsHeld s ev ev.action held
  happens-IsHeld s (moused ev) held = mouse-IsHeld s ev held
  happens-IsHeld s (set_up perform) held = record { keys = held.keys; buttons = held.buttons }

  happen-IsHeld : (s : EnigoSink) (evs : List Event) → IsHeld s → IsHeld (happen s evs)
  unfolding happen
  happen-IsHeld s [] held = held
  happen-IsHeld s (ev ∷ evs) held = happen-IsHeld (happens s ev) evs (happens-IsHeld s ev held)

  -- Nothing stays pressed on a client when the cursor leaves it: after any events, whatever keys and buttons they
  -- pressed, and under whatever set-up, no key and no button of the system is down once `leave` has run,
  -- as far as the system does what it is asked.
  pub leave-KeyDown :
      (evs : List Event)
      → ((k : Key) → ¬ KeyDown k (leave (happen new evs)).acts)
        × ((b : SystemButton) → ¬ ButtonDown b (leave (happen new evs)).acts)
  unfolding new
  leave-KeyDown evs =
      leave_lem (happen new evs)
        (happen-IsHeld new evs record { keys = λ k d. d; buttons = λ b d. d })

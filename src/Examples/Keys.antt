-- ===== src/Examples/Keys.antt =====
-- router.rs on a key combination, while the client `win` has the input; version.rs on two versions.
use geser_desk.Version.{Version, protocol_version, ok, err, is_compatible_with, negotiate}
use geser_desk.Version.Agreement.{negotiate_agrees}
use geser_desk.Prelude.{◌≤◌, ◌⊎◌, true, false, [], ◌∷◌, none, some, find, arith, ◌≡◌, refl}
use geser_desk.Geometry.{point}
use geser_desk.Prelude.{pos}
use geser_desk.Input.{KeyEvent, control, empty_mods, down, up}
use geser_desk.Keys.{Rule, matches, rule_mods}
use geser_desk.Router.{Core, State, send, active_remote}
use geser_desk.Router.KeyInput.{as_action, fired_action, on_key, rule_for}
use geser_desk.Router.Combinations.{keys_in, on_key-release}
use geser_desk.Examples.Router.{away}

-- Control and C together are a key of their own.
abbrev copy_rule : Rule
copy_rule = record { mods = control; hid = 6; action = 124 }

abbrev with_copy : Core
with_copy = record away { key_rules = copy_rule ∷ [] }

abbrev pressed_c : KeyEvent
pressed_c = record { hid = 6; ch = none; mods = control; action = down }

abbrev released_c : KeyEvent
released_c = record { hid = 6; ch = none; mods = empty_mods; action = up }

-- Control is let go before C.
abbrev released_control : KeyEvent
released_control = record { hid = 224; ch = none; mods = control; action = up }

copies : rule_for with_copy pressed_c down ≡ some copy_rule
unfolding rule_for active_remote find matches rule_mods
copies = refl

on_key-release_example :
    let d = keys_in (on_key with_copy pressed_c).0 (released_control ∷ []) in
    ((on_key d released_c).1 ≡ send "win" (as_action 124 up) ∷ [])
    × (fired_action 6 (on_key d released_c).0.fired ≡ none)
    × ((on_key d released_c).0.state ≡ State.remote "win" (point (pos 0) (pos 540)))
unfolding fired_action
on_key-release_example =
    on_key-release with_copy "win" (point (pos 0) (pos 540)) pressed_c released_c
      (released_control ∷ []) copy_rule refl refl copies (omega arith) refl refl

abbrev newer : Version
newer = record { major = 4; minor = 2 }

negotiate_agrees_example :
    ((is_compatible_with protocol_version newer ≡ true)
      × ((u : Version) × (negotiate protocol_version newer ≡ ok u)
          × (negotiate newer protocol_version ≡ ok u)
          × (u.major ≡ 4)
          × (u.minor ≤ 0)
          × (u.minor ≤ 2)))
    ⊎ ((is_compatible_with protocol_version newer ≡ false)
        × (negotiate protocol_version newer
            ≡ err (record { local = protocol_version; remote = newer }))
        × (negotiate newer protocol_version
            ≡ err (record { local = newer; remote = protocol_version })))
negotiate_agrees_example = negotiate_agrees protocol_version newer

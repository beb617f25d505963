-- ===== src/Consumer.antt =====
-- crates/geserdesk-proto/src/consumer.rs: the special keys and the names that `keys.toml` gives them.
use geser_desk.Prelude.{
  ℕ, ◌+◌, Bool, leb, ◌==◌, String, List, [], ◌∷◌, Option, none, some, find, ◌is◌, is_iff, ◌≡◌, refl,
  sym, ap, ◌∙◌, ◌↔◌, inl, inr, Option-cases, All, find-All, find-holds, ==_iff, some_eq,
}

abbrev consumer : ℕ
consumer = 0x0C00

abbrev telephony : ℕ
telephony = 0x0B00

unfoldable pub is_extra : ℕ → Bool
is_extra hid = leb 0x0B00 hid

abbrev pub mute : ℕ
mute = consumer + 0xE2

abbrev pub volume_up : ℕ
volume_up = consumer + 0xE9

abbrev pub volume_down : ℕ
volume_down = consumer + 0xEA

abbrev pub mic_mute : ℕ
mic_mute = telephony + 0x2F

abbrev pub play_pause : ℕ
play_pause = consumer + 0xCD

abbrev pub next_track : ℕ
next_track = consumer + 0xB5

abbrev pub previous_track : ℕ
previous_track = consumer + 0xB6

abbrev pub stop : ℕ
stop = consumer + 0xB7

abbrev pub brightness_up : ℕ
brightness_up = consumer + 0x6F

abbrev pub brightness_down : ℕ
brightness_down = consumer + 0x70

abbrev pub mail : ℕ
mail = consumer + 0x18A

abbrev pub calculator : ℕ
calculator = consumer + 0x192

abbrev pub explorer : ℕ
explorer = consumer + 0x194

abbrev pub browser : ℕ
browser = consumer + 0x196

abbrev pub browser_search : ℕ
browser_search = consumer + 0x221

abbrev pub browser_home : ℕ
browser_home = consumer + 0x223

abbrev pub browser_back : ℕ
browser_back = consumer + 0x224

abbrev pub browser_forward : ℕ
browser_forward = consumer + 0x225

abbrev pub browser_stop : ℕ
browser_stop = consumer + 0x226

abbrev pub browser_refresh : ℕ
browser_refresh = consumer + 0x227

abbrev pub browser_favorites : ℕ
browser_favorites = consumer + 0x22A

abbrev pub actions : List (String × ℕ)
actions =
    ("mute", mute)
    ∷ ("volume_up", volume_up)
    ∷ ("volume_down", volume_down)
    ∷ ("mic_mute", mic_mute)
    ∷ ("play_pause", play_pause)
    ∷ ("next_track", next_track)
    ∷ ("previous_track", previous_track)
    ∷ ("stop", stop)
    ∷ ("brightness_up", brightness_up)
    ∷ ("brightness_down", brightness_down)
    ∷ ("mail", mail)
    ∷ ("calculator", calculator)
    ∷ ("explorer", explorer)
    ∷ ("browser", browser)
    ∷ ("browser_search", browser_search)
    ∷ ("browser_home", browser_home)
    ∷ ("browser_back", browser_back)
    ∷ ("browser_forward", browser_forward)
    ∷ ("browser_stop", browser_stop)
    ∷ ("browser_refresh", browser_refresh)
    ∷ ("browser_favorites", browser_favorites)
    ∷ []

abbrev named : Option (String × ℕ) → Option ℕ
named none = none
named (some a) = some (a.1)

abbrev called : Option (String × ℕ) → Option String
called none = none
called (some a) = some (a.0)

unfoldable pub from_name : String → Option ℕ
unfolding find
from_name wanted = named (find (λ a. a.0 is wanted) actions)

unfoldable pub name : ℕ → Option String
unfolding find
name hid = called (find (λ a. a.1 == hid) actions)

-- Each entry of the table is the first of its name and of its code.
named_actions : All (λ a. name (a.1) ≡ some (a.0)) actions
unfolding name find
named_actions = (
  refl,
  (
    refl,
    (
      refl,
      (
        refl,
        (
          refl,
          (
            refl,
            (
              refl,
              (
                refl,
                (
                  refl,
                  (
                    refl,
                    (
                      refl,
                      (
                        refl,
                        (refl, (refl, (refl, (refl, (refl, (refl, (refl, (refl, (refl, tt))))))))),
                      ),
                    ),
                  ),
                ),
              ),
            ),
          ),
        ),
      ),
    ),
  ),
)

coded_actions : All (λ a. from_name (a.0) ≡ some (a.1)) actions
unfolding from_name find
coded_actions = (
  refl,
  (
    refl,
    (
      refl,
      (
        refl,
        (
          refl,
          (
            refl,
            (
              refl,
              (
                refl,
                (
                  refl,
                  (
                    refl,
                    (
                      refl,
                      (
                        refl,
                        (refl, (refl, (refl, (refl, (refl, (refl, (refl, (refl, (refl, tt))))))))),
                      ),
                    ),
                  ),
                ),
              ),
            ),
          ),
        ),
      ),
    ),
  ),
)

-- The names of the actions in keys.toml: the code of a name has that name, and the other way round.
pub name-from_name : (n : String) (hid : ℕ) → (from_name n ≡ some hid) ↔ (name hid ≡ some n)
unfolding name from_name
name-from_name n hid = (to_name, to_code)
  where
    to_name : from_name n ≡ some hid → name hid ≡ some n
    to_name e = elim (Option-cases (find (λ a. a.0 is n) actions)) [
      | inl absent ↦ cc (rw (from_name, absent) at e)
      | inr (a, found) ↦
          let its =
            find-All (λ a. name (a.1) ≡ some (a.0)) (λ a. a.0 is n) actions named_actions found in
          let same = (is_iff (a.0) n).0 (find-holds (λ a. a.0 is n) actions found) in
          let code = some_eq (rw (from_name, found) at e) in ap name (sym code) ∙ its ∙ ap some same
    ]

    to_code : name hid ≡ some n → from_name n ≡ some hid
    to_code e = elim (Option-cases (find (λ a. a.1 == hid) actions)) [
      | inl absent ↦ cc (rw (name, absent) at e)
      | inr (a, found) ↦
          let its =
            find-All (λ a. from_name (a.0) ≡ some (a.1)) (λ a. a.1 == hid) actions coded_actions
              found in
          let same = (==_iff (a.1) hid).0 (find-holds (λ a. a.1 == hid) actions found) in
          let called_so = some_eq (rw (name, found) at e) in
          ap from_name (sym called_so) ∙ its ∙ ap some same
    ]

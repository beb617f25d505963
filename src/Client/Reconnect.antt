-- ===== src/Client/Reconnect.antt =====
-- crates/geserdesk-client/src/net.rs, `connect_with_status`: connect, run until the link drops, wait, repeat. The
-- attempts are given, each with how it ended, how long it took and the monitors that were found after it. A
-- Duration is a number of nanoseconds.
pub mod Backoff
use geser_desk.Prelude.{
  ℕ, ◌+◌, ◌*◌, Bool, true, false, ◌||◌, ◌&&◌, ◌==◌, leb, min, List, [], ◌∷◌, ◌++◌, Option, none,
  some, is_empty, if◌then◌else◌,
}
use geser_desk.Geometry.{Rect}
use geser_desk.Version.{Version}
use geser_desk.Files.{Text}

-- The errors, with the text of a rejection; the other texts are only shown.
pub data ConnectError : Type 0 where
  connect codec unexpected tls handshake_timeout server_changed server_not_trusted : ConnectError
  incompatible : Version → ConnectError
  rejected : Text → ConnectError

pub data ClientStatus : Type 0 where
  connecting connected disconnected : ClientStatus
  awaiting_approval : Text → ClientStatus
  retrying fatal : ConnectError → ClientStatus

pub record ReconnectPolicy : Type 0 where
  pub initial : ℕ
  pub max : ℕ
  pub stable_after : ℕ

unfoldable pub default_policy : ReconnectPolicy
default_policy = record { initial = 1000000000; max = 10000000000; stable_after = 10000000000 }

abbrev pub duration_max : ℕ
duration_max = 18446744073709551615 * 1000000000 + 999999999

unfoldable pub is_fatal : ConnectError → Bool
is_fatal connect = false
is_fatal codec = false
is_fatal unexpected = false
is_fatal tls = false
is_fatal handshake_timeout = false
is_fatal server_changed = true
is_fatal server_not_trusted = true
is_fatal (incompatible v) = true
is_fatal (rejected reason) = false

-- `str::contains`
abbrev begins : Text → Text → Bool
begins t [] = true
begins [] (c ∷ cs) = false
begins (d ∷ ds) (c ∷ cs) = d == c && begins ds cs

unfoldable pub has_text : Text → Text → Bool
has_text [] sought = begins [] sought
has_text (d ∷ ds) sought = let later = has_text ds sought in begins (d ∷ ds) sought || later

abbrev approval : Text
approval = b'a' ∷ b'p' ∷ b'p' ∷ b'r' ∷ b'o' ∷ b'v' ∷ b'a' ∷ b'l' ∷ []

abbrev different_certificate : Text
different_certificate =
    (b'd' ∷ b'i' ∷ b'f' ∷ b'f' ∷ b'e' ∷ b'r' ∷ b'e' ∷ b'n' ∷ b't' ∷ b' ' ∷ [])
    ++ (b'c' ∷ b'e' ∷ b'r' ∷ b't' ∷ b'i' ∷ b'f' ∷ b'i' ∷ b'c' ∷ b'a' ∷ b't' ∷ b'e' ∷ [])

unfoldable pub status_of : ConnectError → ClientStatus
unfolding has_text
status_of (rejected reason) =
    if has_text reason approval || has_text reason different_certificate
    then awaiting_approval reason
    else retrying (rejected reason)
status_of e = retrying e

-- One round of the loop: what `connect_observed` reported and how it ended (`none` is Ok).
pub record Attempt : Type 0 where
  pub reported : List ClientStatus
  pub ended : Option ConnectError
  pub elapsed : ℕ
  pub detected : Option (List Rect)

pub data Effect : Type 0 where
  status : ClientStatus → Effect
  leaves : Effect
  waits : ℕ → Effect

-- The effects in order, the monitors at the end, and the error that it returned, if it did.
pub record Course : Type 0 where
  pub effects : List Effect
  pub monitors : List Rect
  pub returned : Option ConnectError

abbrev pub statuses : List ClientStatus → List Effect
statuses [] = []
statuses (s ∷ ss) = status s ∷ statuses ss

-- How long this round waits.
abbrev pub wait_of : ReconnectPolicy → ℕ → ℕ → ℕ
wait_of p delay elapsed = if leb p.stable_after elapsed then p.initial else delay

-- The delay after it, doubled.
abbrev pub next_delay : ReconnectPolicy → ℕ → ℕ
next_delay p waited = min (min (waited * 2) duration_max) p.max

abbrev pub refreshed : List Rect → Option (List Rect) → List Rect
refreshed monitors none = monitors
refreshed monitors (some fresh) = if is_empty fresh then monitors else fresh

abbrev pub after : List Effect → Course → Course
after effects c = record c { effects = effects ++ c.effects }

unfoldable pub goes_on : Option ConnectError → Bool
unfolding is_fatal
goes_on none = true
goes_on (some e) = if is_fatal e then false else true

unfoldable pub told : Option ConnectError → ClientStatus
unfolding is_fatal status_of
told none = disconnected
told (some e) = if is_fatal e then fatal e else status_of e

unfoldable pub connect_with_status : ReconnectPolicy → ℕ → List Rect → List Attempt → Course
unfolding goes_on told
connect_with_status p delay monitors [] = record {
  effects = [];
  monitors = monitors;
  returned = none;
}
connect_with_status p delay monitors (a ∷ attempts) =
    let waited = wait_of p delay a.elapsed in
    let rest =
      connect_with_status p (next_delay p waited) (refreshed monitors a.detected) attempts in
    let so_far = statuses a.reported ++ (status (told a.ended) ∷ []) in
    if goes_on a.ended
    then after (so_far ++ (leaves ∷ waits waited ∷ [])) rest
    else record { effects = so_far; monitors = monitors; returned = a.ended }

-- ===== src/Client/Reconnect/Backoff.antt =====
-- How long a client waits between its attempts (net.rs, `connect_with_status`).
use geser_desk.Prelude.{
  ℕ, zero, suc, ◌*◌, ◌≤◌, ◌<◌, true, false, leb, min, List, [], ◌∷◌, ◌++◌, Option, none, arith, ◌≡◌,
  refl, ap, ◌∙◌, inl, inr, Bool-cases, All, length, if◌then◌else◌,
}
use geser_desk.Geometry.{Rect}
use geser_desk.Client.Reconnect.{
  ConnectError, ClientStatus, ReconnectPolicy, Attempt, Effect, status, leaves, waits, statuses,
  wait_of, next_delay, refreshed, goes_on, told, duration_max, connect_with_status,
}

-- The waits among the effects.
abbrev pub waits_in : List Effect → List ℕ
waits_in [] = []
waits_in (status s ∷ es) = waits_in es
waits_in (leaves ∷ es) = waits_in es
waits_in (waits n ∷ es) = n ∷ waits_in es

-- The first error that ends it.
abbrev pub first_fatal : List Attempt → Option ConnectError
first_fatal [] = none
first_fatal (a ∷ attempts) =
    let rest = first_fatal attempts in if goes_on a.ended then rest else a.ended

-- The attempts before it.
abbrev pub before_fatal : List Attempt → List Attempt
before_fatal [] = []
before_fatal (a ∷ attempts) =
    let rest = before_fatal attempts in if goes_on a.ended then a ∷ rest else []

waits_in-statuses :
    (ss : List ClientStatus) (es : List Effect) → waits_in (statuses ss ++ es) ≡ waits_in es
waits_in-statuses [] es = refl
waits_in-statuses (s ∷ ss) es = waits_in-statuses ss es

waits_in-append : (es fs : List Effect) → waits_in (es ++ fs) ≡ waits_in es ++ waits_in fs
waits_in-append [] fs = refl
waits_in-append (status s ∷ es) fs = waits_in-append es fs
waits_in-append (leaves ∷ es) fs = waits_in-append es fs
waits_in-append (waits n ∷ es) fs = ap (λ l. n ∷ l) (waits_in-append es fs)

-- A round that goes on waits once, and one that returns does not.
round_goes_on :
    (p : ReconnectPolicy) (delay : ℕ) (monitors : List Rect) (a : Attempt) (attempts : List Attempt)
    → goes_on a.ended ≡ true
    → let waited = wait_of p delay a.elapsed in
      let rest =
        connect_with_status p (next_delay p waited) (refreshed monitors a.detected) attempts in
      let all = connect_with_status p delay monitors (a ∷ attempts) in
      (waits_in all.effects ≡ waited ∷ waits_in rest.effects) × (all.returned ≡ rest.returned)
unfolding connect_with_status
round_goes_on p delay monitors a attempts on =
    let waited = wait_of p delay a.elapsed in
    let rest =
      connect_with_status p (next_delay p waited) (refreshed monitors a.detected) attempts in
    let so_far = statuses a.reported ++ (status (told a.ended) ∷ []) in
    let none_yet : waits_in so_far ≡ [] =
      waits_in-statuses a.reported (status (told a.ended) ∷ []) in
    let split = waits_in-append (so_far ++ (leaves ∷ waits waited ∷ [])) rest.effects in
    let first = waits_in-append so_far (leaves ∷ waits waited ∷ []) in
    let one : waits_in ((so_far ++ (leaves ∷ waits waited ∷ [])) ++ rest.effects)
        ≡ waited ∷ waits_in rest.effects =
      split
      ∙ ap (λ l. l ++ waits_in rest.effects) (first ∙ ap (λ l. l ++ (waited ∷ [])) none_yet) in
    simp on (one, refl)

round_returns :
    (p : ReconnectPolicy) (delay : ℕ) (monitors : List Rect) (a : Attempt) (attempts : List Attempt)
    → goes_on a.ended ≡ false
    → let all = connect_with_status p delay monitors (a ∷ attempts) in
      (waits_in all.effects ≡ []) × (all.returned ≡ a.ended)
unfolding connect_with_status
round_returns p delay monitors a attempts off =
    simp off (waits_in-statuses a.reported (status (told a.ended) ∷ []), refl)

-- The loop goes on until the first error that a retry cannot fix, returns that error and no other, and has
-- waited once after each attempt before it, for no less than the policy's initial delay and no more than its
-- largest one. The initial delay is at most the largest, which is a Duration, and the first delay is within these too.
pub connect_with_status_lem :
    (p : ReconnectPolicy) (delay : ℕ) (monitors : List Rect) (attempts : List Attempt)
    → p.max ≤ duration_max
    → p.initial ≤ delay
    → delay ≤ p.max
    → let course = connect_with_status p delay monitors attempts in
      (course.returned ≡ first_fatal attempts)
      × (length (waits_in course.effects) ≡ length (before_fatal attempts))
      × All (λ w. (p.initial ≤ w) × (w ≤ p.max)) (waits_in course.effects)
unfolding connect_with_status
connect_with_status_lem p delay monitors [] small least most = (refl, refl, tt)
connect_with_status_lem p delay monitors (a ∷ attempts) small least most =
    elim (Bool-cases (goes_on a.ended)) [
      | inl on ↦
          let waited = wait_of p delay a.elapsed in
          let least' : p.initial ≤ waited = ground (arith, least, most) in
          let most' : waited ≤ p.max = ground (arith, least, most) in
          let (returned, counted, bounds) =
            connect_with_status_lem p (next_delay p waited) (refreshed monitors a.detected) attempts
              small (ground (arith, least', most', small)) (ground arith) in
          let (one, same) = round_goes_on p delay monitors a attempts on in
          (
            same ∙ returned ∙ simp on refl,
            ap length one ∙ simp on (ap suc counted),
            rw one ((least', most'), bounds),
          )
      | inr off ↦
          let (none_waits, same) = round_returns p delay monitors a attempts off in
          (same ∙ simp off refl, ap length none_waits ∙ simp off refl, rw none_waits tt)
    ]

-- `initial` doubled `k` times.
abbrev pub doubled : ℕ → ℕ → ℕ
doubled zero n = n
doubled (suc k) n = 2 * doubled k n

abbrev pub backoff : ReconnectPolicy → ℕ → ℕ → List ℕ
backoff p zero k = []
backoff p (suc n) k = min (doubled k p.initial) p.max ∷ backoff p n (suc k)

-- An attempt that ends early, and not for good.
abbrev pub Fails : ReconnectPolicy → Attempt → Type 0
Fails p a = (goes_on a.ended ≡ true) × (a.elapsed < p.stable_after)

backoff_from :
    (p : ReconnectPolicy) (k delay : ℕ) (monitors : List Rect) (attempts : List Attempt)
    → p.max ≤ duration_max
    → delay ≡ min (doubled k p.initial) p.max
    → All (Fails p) attempts
    → waits_in (connect_with_status p delay monitors attempts).effects
      ≡ backoff p (length attempts) k
unfolding connect_with_status
backoff_from p k delay monitors [] small now fails = refl
backoff_from p k delay monitors (a ∷ attempts) small now fails =
    let early : leb p.stable_after a.elapsed ≡ false = ground (arith, fails.0.1) in
    let waited : wait_of p delay a.elapsed ≡ delay = simp early refl in
    let next : next_delay p delay ≡ min (doubled (suc k) p.initial) p.max =
      ground (arith, now, small) in
    let later =
      backoff_from p (suc k) (next_delay p (wait_of p delay a.elapsed))
        (refreshed monitors a.detected) attempts small (ap (next_delay p) waited ∙ next) fails.1 in
    (round_goes_on p delay monitors a attempts fails.0.0).0
    ∙ ap
        (λ w.
          w
          ∷ waits_in
              (connect_with_status p (next_delay p (wait_of p delay a.elapsed))
                (refreshed monitors a.detected) attempts).effects)
        (waited ∙ now)
    ∙ ap (λ l. min (doubled k p.initial) p.max ∷ l) later

-- The wait doubles: after attempts that all end early and can be tried again, the waits are the initial delay,
-- twice that, and so on, up to the largest one. The initial delay is at most the largest, which is a Duration.
pub connect_with_status-backoff :
    (p : ReconnectPolicy) (monitors : List Rect) (attempts : List Attempt)
    → p.max ≤ duration_max
    → p.initial ≤ p.max
    → All (Fails p) attempts
    → waits_in (connect_with_status p p.initial monitors attempts).effects
      ≡ backoff p (length attempts) 0
connect_with_status-backoff p monitors attempts small ordered fails =
    backoff_from p 0 p.initial monitors attempts small (ground (arith, ordered)) fails

-- ===== src/Examples/Retry.antt =====
-- A client that cannot reach its server, at concrete attempts (net.rs, `connect_with_status`).
use geser_desk.Prelude.{◌≤◌, [], ◌∷◌, none, some, arith, ◌≡◌, refl, All, length}
use geser_desk.Client.Reconnect.{
  Attempt, ConnectError, default_policy, connect_with_status, goes_on, is_fatal,
}
use geser_desk.Client.Reconnect.Backoff.{
  waits_in, first_fatal, before_fatal, connect_with_status_lem, connect_with_status-backoff,
}

abbrev refused : Attempt
refused = record { reported = []; ended = some ConnectError.connect; elapsed = 5; detected = none }

abbrev impostor : Attempt
impostor = record {
  reported = [];
  ended = some ConnectError.server_changed;
  elapsed = 5;
  detected = none;
}

connect_with_status_lem_example :
    let course =
      connect_with_status default_policy 1000000000 []
        (refused ∷ refused ∷ impostor ∷ refused ∷ []) in
    (course.returned ≡ first_fatal (refused ∷ refused ∷ impostor ∷ refused ∷ []))
    × (length (waits_in course.effects)
        ≡ length (before_fatal (refused ∷ refused ∷ impostor ∷ refused ∷ [])))
    × All (λ w. (1000000000 ≤ w) × (w ≤ 10000000000)) (waits_in course.effects)
unfolding default_policy
connect_with_status_lem_example =
    connect_with_status_lem default_policy 1000000000 []
      (refused ∷ refused ∷ impostor ∷ refused ∷ []) (omega arith) (omega arith) (omega arith)

connect_with_status-backoff_example :
    waits_in
      (connect_with_status default_policy 1000000000 []
        (refused ∷ refused ∷ refused ∷ refused ∷ refused ∷ [])).effects
    ≡ 1000000000 ∷ 2000000000 ∷ 4000000000 ∷ 8000000000 ∷ 10000000000 ∷ []
unfolding default_policy goes_on is_fatal
connect_with_status-backoff_example =
    connect_with_status-backoff default_policy []
      (refused ∷ refused ∷ refused ∷ refused ∷ refused ∷ []) (omega arith) (omega arith)
      (
        (refl, omega arith),
        (
          (refl, omega arith),
          ((refl, omega arith), ((refl, omega arith), ((refl, omega arith), tt))),
        ),
      )

-- ===== src/Client/Success.antt =====
-- When the compliance client of peat-sapient succeeds against the bridge.
use peat_sapient.Base.{
  String, ◌≡◌, refl, sym, Bool, true, false, Option, none, some, [], ◌∷◌, arith, ltb, not, ◌&&◌,
  if◌then◌else◌,
}
use peat_sapient.Float.{Float}
use peat_sapient.Error.{Result, ok, err}
use peat_sapient.Proto.{
  SapientMessage, Content, registration, registration_ack, status_report, detection_report, task,
  task_ack, alert, alert_ack, error,
}
use peat_sapient.Connection.{Outcome, done, failed, is_done}
use peat_sapient.Client.{Made, client_registration, client_status, client_detection}
use peat_sapient.Client.Exchange.{
  Answers, success, failure, Session, send_step, is_accepted, check_ack, answer_content,
  answer_task, exit_code, after_ack, after_registration, begin, register, run_client, main,
}

abbrev pub is_sent : Result (Unit {0}) → Bool
is_sent (ok _) = true
is_sent (err e) = false

and_true : (b : Bool) → (b && true) ≡ b
and_true true = refl
and_true false = refl

module _ {fl : Float} where
  abbrev pub is_greeted : Result (Option (SapientMessage fl)) → Bool
  is_greeted (ok (some msg)) = is_accepted msg.content
  is_greeted (ok none) = false
  is_greeted (err e) = false

  -- What came is no task, or its acknowledgement was sent.
  abbrev pub is_handled : Result (Unit {0}) → Option (Content fl) → Bool
  is_handled ack_sent (some (task t)) = is_sent ack_sent
  is_handled ack_sent (some (registration _)) = true
  is_handled ack_sent (some (registration_ack _)) = true
  is_handled ack_sent (some (status_report _)) = true
  is_handled ack_sent (some (detection_report _)) = true
  is_handled ack_sent (some (task_ack _)) = true
  is_handled ack_sent (some (alert _)) = true
  is_handled ack_sent (some (alert_ack _)) = true
  is_handled ack_sent (some (error _)) = true
  is_handled ack_sent none = true

  -- The wait for a task timed out, found the connection closed, or ended with a handled message.
  abbrev pub is_answered : Result (Unit {0}) → Option (Result (Option (SapientMessage fl))) → Bool
  is_answered ack_sent none = true
  is_answered ack_sent (some (ok none)) = true
  is_answered ack_sent (some (err e)) = false
  is_answered ack_sent (some (ok (some msg))) = is_handled ack_sent msg.content

  -- No step of the session failed.
  abbrev clean : Session fl → Bool
  clean s = not (ltb 0 s.steps_failed)

  clean-send_step :
      (r : Result (Unit {0})) (msg : SapientMessage fl) (s : Session fl)
      → clean (send_step r msg s) ≡ (clean s && is_sent r)
  unfolding send_step
  clean-send_step (ok _) msg s = ground arith
  clean-send_step (err e) msg s = ground arith

  clean-check_ack :
      (msg : SapientMessage fl) (s : Session fl)
      → clean (check_ack msg s) ≡ (clean s && is_accepted msg.content)
  unfolding check_ack
  clean-check_ack msg s = ground arith

  clean-answer_content :
      (made : Made) (r : Result (Unit {0})) (sender : Option String) (c : Option (Content fl))
      (s : Session fl)
      → clean (answer_content made r sender c s) ≡ (clean s && is_handled r c)
  unfolding answer_content
  clean-answer_content made r sender (some (task t)) s = clean-send_step r _ s
  clean-answer_content made r sender (some (registration _)) s = sym (and_true (clean s))
  clean-answer_content made r sender (some (registration_ack _)) s = sym (and_true (clean s))
  clean-answer_content made r sender (some (status_report _)) s = sym (and_true (clean s))
  clean-answer_content made r sender (some (detection_report _)) s = sym (and_true (clean s))
  clean-answer_content made r sender (some (task_ack _)) s = sym (and_true (clean s))
  clean-answer_content made r sender (some (alert _)) s = sym (and_true (clean s))
  clean-answer_content made r sender (some (alert_ack _)) s = sym (and_true (clean s))
  clean-answer_content made r sender (some (error _)) s = sym (and_true (clean s))
  clean-answer_content made r sender none s = sym (and_true (clean s))

  clean-answer_task :
      (made : Made) (r : Result (Unit {0})) (o : Option (Result (Option (SapientMessage fl))))
      (s : Session fl)
      → clean (answer_task made r o s) ≡ (clean s && is_answered r o)
  unfolding answer_task
  clean-answer_task made r none s = sym (and_true (clean s))
  clean-answer_task made r (some (ok none)) s = sym (and_true (clean s))
  clean-answer_task made r (some (err e)) s = ground arith
  clean-answer_task made r (some (ok (some msg))) s =
      clean-answer_content made r msg.node_id msg.content s

  clean-after_ack :
      (made : Made) (net : Answers fl) (s : Session fl)
      → clean (after_ack made net s) ≡ (
          clean s
          && is_sent net.status_sent
          && is_sent net.detection_sent
          && is_answered net.ack_sent net.second)
  unfolding after_ack
  clean-after_ack made net s =
      let one = send_step net.status_sent (client_status made) s in
      let two = send_step net.detection_sent (client_detection made) one in
      ground (
        arith,
        clean-send_step net.status_sent (client_status made) s,
        clean-send_step net.detection_sent (client_detection made) one,
        clean-answer_task made net.ack_sent net.second two,
      )

  exit_code-clean : (s : Session fl) → exit_code s ≡ (if clean s then success else failure)
  unfolding exit_code
  exit_code-clean s = ground arith

  abbrev pub succeeds : Answers fl → Bool
  succeeds net =
      is_done net.dialled
      && is_sent net.registration_sent
      && is_greeted net.first
      && is_sent net.status_sent
      && is_sent net.detection_sent
      && is_answered net.ack_sent net.second

  register-succeeds :
      (made : Made) (net : Answers fl) (first : Result (Option (SapientMessage fl)))
      → (after_registration made net first
          (record begin { sent = client_registration made ∷ [] })).1
        ≡ (if is_greeted first
              && is_sent net.status_sent
              && is_sent net.detection_sent
              && is_answered net.ack_sent net.second
            then success
            else failure)
  unfolding after_registration
  register-succeeds made net (ok none) = refl
  register-succeeds made net (err e) = refl
  register-succeeds made net (ok (some msg)) =
      let s : Session fl = record begin { sent = client_registration made ∷ [] } in
      ground (
        arith,
        exit_code-clean (after_ack made net (check_ack msg s)),
        clean-after_ack made net (check_ack msg s),
        clean-check_ack msg s,
      )

  run_client-succeeds :
      (made : Made) (net : Answers fl) (dialled : Outcome (Unit {0}))
      (registered : Result (Unit {0}))
      → (run_client made (record net { registration_sent = registered }) dialled).1 ≡ (
          if is_done dialled
            && is_sent registered
            && is_greeted net.first
            && is_sent net.status_sent
            && is_sent net.detection_sent
            && is_answered net.ack_sent net.second
          then success
          else failure)
  unfolding run_client register
  run_client-succeeds made net (failed e) registered = refl
  run_client-succeeds made net (done _) (err e) = refl
  run_client-succeeds made net (done _) (ok _) =
      register-succeeds made (record net { registration_sent = ok _ }) net.first

  -- The client succeeds exactly when the connection was made, its registration was sent and the first
  -- message accepts it, its status and its detection were sent, and the wait for a task timed out,
  -- found the connection closed, or ended with a message that is no task or whose acknowledgement was
  -- sent; whatever identifiers and times it makes.
  pub main-succeeds :
      (made : Made) (net : Answers fl)
      → (main made net).1 ≡ (if succeeds net then success else failure)
  unfolding main
  main-succeeds made net = run_client-succeeds made net net.dialled net.registration_sent

-- ===== src/Client/Exchange.antt =====
-- The exchange of the compliance client, peat-sapient/src/bin/sapient_compliance_client.rs, with an
-- HLDMM at a valid address. What the network answers is an argument.
use peat_sapient.Base.{
  ℕ, ◌+◌, String, Bool, false, Option, none, some, List, [], ◌∷◌, ◌++◌, ltb, if◌then◌else◌,
}
use peat_sapient.Float.{Float}
use peat_sapient.Error.{Result, ok, err}
use peat_sapient.Proto.{
  SapientMessage, Content, registration, registration_ack, status_report, detection_report, task,
  task_ack, alert, alert_ack, error,
}
use peat_sapient.Connection.{Outcome, done, failed}
use peat_sapient.Client.{
  Made, client_registration, client_status, client_detection, client_task_ack,
}

-- What the network answers: to the dialling, to each send, and to the two receives, of which the
-- second may time out.
pub record Answers (fl : Float) : Type 0 where
  pub dialled : Outcome (Unit {0})
  pub registration_sent : Result (Unit {0})
  pub first : Result (Option (SapientMessage fl))
  pub status_sent : Result (Unit {0})
  pub detection_sent : Result (Unit {0})
  pub second : Option (Result (Option (SapientMessage fl)))
  pub ack_sent : Result (Unit {0})

pub data ExitCode : Type 0 where
  success failure : ExitCode

pub record Session (fl : Float) : Type 0 where
  pub sent : List (SapientMessage fl)
  pub steps_passed : ℕ
  pub steps_failed : ℕ

module _ {fl : Float} where
  unfoldable pub pass : Session fl → Session fl
  pass s = record s { steps_passed = s.steps_passed + 1 }

  unfoldable pub fail : Session fl → Session fl
  fail s = record s { steps_failed = s.steps_failed + 1 }

  -- A send whose failure is counted and does not end the exchange.
  unfoldable pub send_step : Result (Unit {0}) → SapientMessage fl → Session fl → Session fl
  unfolding pass fail
  send_step (ok _) msg s = pass (record s { sent = s.sent ++ msg ∷ [] })
  send_step (err e) msg s = fail s

  -- The acknowledgement of the registration accepts it.
  unfoldable pub is_accepted : Option (Content fl) → Bool
  is_accepted (some (registration_ack ack)) = elim ack.acceptance [ none ↦ false | some b ↦ b ]
  is_accepted (some (registration _)) = false
  is_accepted (some (status_report _)) = false
  is_accepted (some (detection_report _)) = false
  is_accepted (some (task _)) = false
  is_accepted (some (task_ack _)) = false
  is_accepted (some (alert _)) = false
  is_accepted (some (alert_ack _)) = false
  is_accepted (some (error _)) = false
  is_accepted none = false

  unfoldable pub check_ack : SapientMessage fl → Session fl → Session fl
  unfolding is_accepted pass fail
  check_ack msg s = if is_accepted msg.content then pass s else fail s

  unfoldable pub answer_content :
      Made → Result (Unit {0}) → Option String → Option (Content fl) → Session fl → Session fl
  unfolding send_step client_task_ack
  answer_content made ack_sent sender (some (task t)) s =
      send_step ack_sent (client_task_ack made sender t) s
  answer_content made ack_sent sender (some (registration _)) s = s
  answer_content made ack_sent sender (some (registration_ack _)) s = s
  answer_content made ack_sent sender (some (status_report _)) s = s
  answer_content made ack_sent sender (some (detection_report _)) s = s
  answer_content made ack_sent sender (some (task_ack _)) s = s
  answer_content made ack_sent sender (some (alert _)) s = s
  answer_content made ack_sent sender (some (alert_ack _)) s = s
  answer_content made ack_sent sender (some (error _)) s = s
  answer_content made ack_sent sender none s = s

  -- The wait for a task, with its timeout.
  unfoldable pub answer_task :
      Made
      → Result (Unit {0})
      → Option (Result (Option (SapientMessage fl)))
      → Session fl
      → Session fl
  unfolding answer_content fail
  answer_task made ack_sent none s = s
  answer_task made ack_sent (some (ok none)) s = s
  answer_task made ack_sent (some (err e)) s = fail s
  answer_task made ack_sent (some (ok (some msg))) s =
      answer_content made ack_sent msg.node_id msg.content s

  unfoldable pub exit_code : Session fl → ExitCode
  exit_code s = if ltb 0 s.steps_failed then failure else success

  unfoldable pub after_ack : Made → Answers fl → Session fl → Session fl
  unfolding send_step answer_task client_status client_detection
  after_ack made net s = answer_task made net.ack_sent net.second (
      send_step net.detection_sent (client_detection made)
        (send_step net.status_sent (client_status made) s))

  unfoldable pub after_registration :
      Made → Answers fl → Result (Option (SapientMessage fl)) → Session fl → Session fl × ExitCode
  unfolding check_ack after_ack exit_code
  after_registration made net (ok (some msg)) s =
      let last = after_ack made net (check_ack msg s) in (last, exit_code last)
  after_registration made net (ok none) s = (s, failure)
  after_registration made net (err e) s = (s, failure)

  abbrev pub begin : Session fl
  begin = record { sent = []; steps_passed = 0; steps_failed = 0 }

  unfoldable pub register : Made → Answers fl → Result (Unit {0}) → Session fl × ExitCode
  unfolding after_registration client_registration
  register made net (ok _) =
      after_registration made net net.first (record begin { sent = client_registration made ∷ [] })
  register made net (err e) = (begin, failure)

  -- `main` from the answer to the dialling.
  unfoldable pub run_client : Made → Answers fl → Outcome (Unit {0}) → Session fl × ExitCode
  unfolding register
  run_client made net (done _) = register made net net.registration_sent
  run_client made net (failed e) = (begin, failure)

  unfoldable pub main : Made → Answers fl → Session fl × ExitCode
  unfolding run_client
  main made net = run_client made net net.dialled

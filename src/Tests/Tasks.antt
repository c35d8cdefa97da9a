-- ===== src/Tests/Tasks.antt =====
-- The theorems on tasks, at concrete inputs.
use ad_nope.Prelude.{◌≡◌, refl, List, [], ◌∷◌, none, some, get_elem?, ◌++◌, arith}
use ad_nope.Config.{default_config}
use ad_nope.Engine.State
use ad_nope.Dns.{a}
use ad_nope.Server.Cache.{Response}
use ad_nope.Server.Query.{Handler, new_handler}
use ad_nope.Server.Tasks.{received, done}
use ad_nope.Server.Tasks.System.{
  System, serving, refreshing, asking, Turn, turn, changed, paused, resumed, run,
}
use ad_nope.Server.Tasks.Delivery.{Sent, run-Sent}
use ad_nope.Server.Tasks.Logging.{Logged, ended_tasks, run-Logged}
use ad_nope.Server.Tasks.Answered.{run-answered}
use ad_nope.Tests.Fixtures.{unbounded, names}
use ad_nope.Prelude.{All}
use ad_nope.Stats
use ad_nope.Server.Handler.{new}
use ad_nope.Server.Filter.{HasNoAaaa}
use ad_nope.Server.Tasks.Filtered.{tasks-HasNoAaaa}
use ad_nope.Tests.Server.{mixed, ipv4_only, constant, server, clock, request}

abbrev handler : Handler
handler = new_handler names default_config

-- Two requests and a background task.
abbrev system : System constant unbounded names
system = record {
  tasks =
      serving clock request received
      ∷ refreshing 6 ("b.com", a) asking
      ∷ serving clock request received
      ∷ [];
  server = server;
}

abbrev round : List Turn
round = turn 0 ∷ turn 2 ∷ turn 1 ∷ []

-- The first request has nine turns, with a pause, a resume and a change of the blocklist between them.
abbrev turns : List Turn
turns =
    round
    ++ (paused 5 10
        ∷ (round
            ++ (resumed
                ∷ (round
                    ++ (changed (λ name. none)
                        ∷ (round ++ round ++ round ++ round ++ round ++ round))))))

run-Sent_example : Sent constant unbounded names 1_000 handler system.tasks system.server (
  (run constant unbounded names 1_000 handler system turns).tasks,
  (run constant unbounded names 1_000 handler system turns).server,
)
run-Sent_example = run-Sent constant unbounded names 1_000 handler turns system

run-answered_example :
    (info : Response) × (get_elem? (run constant unbounded names 1_000 handler system turns).tasks 0
      ≡ some (serving clock request (done info)))
unfolding State.new new_handler
run-answered_example =
    run-answered constant unbounded names
      (λ state stats name qtype. (_, refl, (omega arith, (omega arith, tt)))) 1_000 handler clock
      request "Ads.com." a refl refl (omega arith) 0 turns system refl (omega arith, tt) refl
      (omega arith)

-- The resolver answers with an AAAA record.
tasks-HasNoAaaa_example :
    All
      (λ r. HasNoAaaa r.answers)
      (run mixed unbounded names 1_000
        (new mixed unbounded names ipv4_only
          (Stats.new 0 60 [] [])
          []
          (λ name. none)
          tt
          State.new).0
        (record {
          tasks = system.tasks;
          server =
              (new mixed unbounded names ipv4_only
                (Stats.new 0 60 [] [])
                []
                (λ name. none)
                tt
                State.new).1;
        })
        turns).server.sent
tasks-HasNoAaaa_example =
    tasks-HasNoAaaa mixed unbounded names ipv4_only (Stats.new 0 60 [] []) [] (λ name. none) tt
      State.new 1_000 system.tasks turns refl (refl, (tt, (refl, tt)))

run-Logged_example :
    Logged constant unbounded names handler 1_000 (ended_tasks system.tasks) system.server (
      ended_tasks (run constant unbounded names 1_000 handler system turns).tasks,
      (run constant unbounded names 1_000 handler system turns).server,
    )
run-Logged_example = run-Logged constant unbounded names handler 1_000 turns system

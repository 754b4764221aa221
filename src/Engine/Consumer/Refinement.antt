-- ===== src/Engine/Consumer/Refinement.antt =====
-- What the engine and its consumer thread (src/engine/engine.py) make of the bridge is a run of its
-- operations.
use realtime_market_data_pla.Common.{
  ℕ, ◌≡◌, refl, Bool, true, false, ◌||◌, Option, none, some, List, [], ◌∷◌, ◌++◌, contains,
  if◌then◌else◌, nat_Key, string_Key, pair_Key,
}
use realtime_market_data_pla.Engine.Bridge.Trace.{
  step, Trace, Call, run, drains, consumes, acknowledges,
}
use realtime_market_data_pla.Engine.Bridge.{ConsumedEvent}
use realtime_market_data_pla.Engine.Consumer.{
  System, drain, finish, track, poll_once, acts, start, Action, pass, receive, put, act,
  process_next, passes, Poll, Ending, handoff, processes, message, goes_on, gives_up, nothing,
  poll_raises, shuts_down, stops,
}
use realtime_market_data_pla.Common.Dict.{lookup}
use realtime_market_data_pla.Engine.Bridge.Safety.{fresh_trace}
use realtime_market_data_pla.Engine.Processing.{DistributionEngine, Attempt, process_consumed_event}
use realtime_market_data_pla.Engine.Processing.Acknowledged.{Leaves, process_consumed_event-Leaves}
use realtime_market_data_pla.Engine.Consumer.Matches.{
  Matches, put-track-Matches, drain-Matches, left-Matches, done-Matches,
}

module _ {F : Type 0} where
  run_append :
      (t : Trace F) (before after : List (Call F))
      → run t (before ++ after) ≡ run (run t before) after
  unfolding run
  run_append t [] after = refl
  run_append t (call ∷ before) after = run_append (step t call) before after

  -- Some run of the bridge's operations from a new bridge gives the system's bridge and commits.
  abbrev pub Refines : System F → Type 0
  Refines s = (calls : List (Call F)) × Matches s (run fresh_trace calls)

  Refines-if : (b : Bool) (s s' : System F) → Refines s → Refines s' → Refines (if b then s else s')
  Refines-if true s s' v v' = v
  Refines-if false s s' v v' = v'

  then_call :
      (s s' : System F) (call : Call F)
      → ((t : Trace F) → Matches s t → Matches s' (step t call))
      → Refines s
      → Refines s'
  unfolding run
  then_call s s' call next (calls, m) = (
    calls ++ call ∷ [],
    rw (run_append fresh_trace calls (call ∷ [])) (next (run fresh_trace calls) m),
  )

  finish-Refines : (ok : Bool) (s : System F) → Refines s → Refines (finish ok s)
  unfolding finish
  finish-Refines ok s = then_call s (finish ok s) (drains ok) (λ t m.
      let m' = drain-Matches ok s t m in
      record {
        bridge = m'.bridge;
        committed = m'.committed;
        first = m'.first;
        acked = m'.acked;
        queued = m'.queued;
      })

  drain-Refines : (ok : Bool) (s : System F) → Refines s → Refines (drain ok s)
  drain-Refines ok s = then_call s (drain ok s) (drains ok) (drain-Matches ok s)

  receive-Refines :
      (c : ConsumedEvent F) (timeouts : ℕ) (ending : Ending) (last_ok : Bool) (s : System F)
      → Refines s
      → Refines (receive c timeouts ending last_ok s)
  unfolding receive
  receive-Refines c timeouts ending last_ok s v =
      let (handed, queued) = handoff s.has_loop timeouts ending in
      let s' = put queued c (track c s) in
      let v' = then_call s s' (consumes c) (put-track-Matches queued c s) v in
      Refines-if handed s' (finish last_ok s') v' (finish-Refines last_ok s' v')

  poll_once-Refines :
      (poll : Poll F) (timeouts : ℕ) (ending : Ending) (last_ok : Bool) (s : System F)
      → Refines s
      → Refines (poll_once poll timeouts ending last_ok s)
  unfolding poll_once
  poll_once-Refines nothing timeouts ending last_ok s v = v
  poll_once-Refines poll_raises timeouts ending last_ok s v = finish-Refines last_ok s v
  poll_once-Refines (message none key offset) timeouts ending last_ok s v = v
  poll_once-Refines (message (some event) key offset) timeouts ending last_ok s v =
      receive-Refines (record { event = event; topic = key.0; partition = key.1; offset = offset })
        timeouts ending last_ok s v

  pass-Refines :
      (ok : Bool) (poll : Poll F) (timeouts : ℕ) (ending : Ending) (last_ok : Bool) (s : System F)
      → Refines s
      → Refines (pass ok poll timeouts ending last_ok s)
  unfolding pass
  pass-Refines ok poll timeouts ending last_ok s v =
      Refines-if s.stop (finish last_ok s) (poll_once poll timeouts ending last_ok (drain ok s))
        (finish-Refines last_ok s v)
        (poll_once-Refines poll timeouts ending last_ok (drain ok s) (drain-Refines ok s v))

  answered-Refines :
      (answer : Option Bool) (c : ConsumedEvent F) (rest : List (ConsumedEvent F))
      (e : DistributionEngine F) (s : System F)
      → s.queue ≡ c ∷ rest
      → Leaves c s.engine e answer
      → Refines s
      → Refines (record s {
        engine = e;
        queue = rest;
        working = goes_on answer;
        stop = s.stop || gives_up answer;
      })
  answered-Refines none c rest e s head l (calls, m) = (
    calls,
    left-Matches c rest e (goes_on none) (s.stop || gives_up none) s (run fresh_trace calls) head
        l.1 m,
  )
  answered-Refines (some false) c rest e s head l (calls, m) = (
    calls,
    left-Matches c rest e (goes_on (some false)) (s.stop || gives_up (some false)) s
        (run fresh_trace calls) head l.1 m,
  )
  answered-Refines (some true) c rest e s head l v =
      then_call s
        (record s {
          engine = e;
          queue = rest;
          working = goes_on (some true);
          stop = s.stop || gives_up (some true);
        })
        (acknowledges c)
        (λ t.
          done-Matches c rest e (goes_on (some true)) (s.stop || gives_up (some true)) s t head l.1)
        v

  process_next-Refines :
      (attempts : List Attempt) (waiting : List (ConsumedEvent F)) (s : System F)
      → s.queue ≡ waiting
      → Refines s
      → Refines (process_next attempts waiting s)
  unfolding process_next
  process_next-Refines attempts [] s head v = v
  process_next-Refines attempts (c ∷ rest) s head v =
      answered-Refines (process_consumed_event attempts c s.engine).1 c rest
        (process_consumed_event attempts c s.engine).0 s head
        (process_consumed_event-Leaves attempts c s.engine) v

  act-Refines : (a : Action F) (s : System F) → Refines s → Refines (act a s)
  unfolding act
  act-Refines (passes ok poll timeouts ending last_ok) s v =
      Refines-if s.looping (pass ok poll timeouts ending last_ok s) s
        (pass-Refines ok poll timeouts ending last_ok s v) v
  act-Refines (processes attempts) s v =
      Refines-if s.working (process_next attempts s.queue s) s
        (process_next-Refines attempts s.queue s refl v) v
  act-Refines shuts_down s (calls, m) = (
    calls,
    record {
      bridge = m.bridge;
      committed = m.committed;
      first = m.first;
      acked = m.acked;
      queued = m.queued;
    },
  )
  act-Refines stops s (calls, m) = (
    calls,
    record {
      bridge = m.bridge;
      committed = m.committed;
      first = m.first;
      acked = m.acked;
      queued = m.queued;
    },
  )

  pub acts-Refines :
      (actions : List (Action F)) (s : System F) → Refines s → Refines (acts actions s)
  unfolding acts
  acts-Refines [] s v = v
  acts-Refines (a ∷ actions) s v = acts-Refines actions (act a s) (act-Refines a s v)

  start-Refines : (e : DistributionEngine F) → Refines (start e)
  unfolding start run contains lookup
  start-Refines e = (
    [],
    record { bridge = refl; committed = refl; first = λ key. refl; acked = λ x h. h; queued = tt },
  )

  -- Whatever the consumer thread polls, and however the handoffs, the commits and the work of the
  -- engine go and interleave, from the start on: the bridge and its commits are those of a run of
  -- the bridge's three operations, in which only what was tracked is acknowledged.
  pub acts_start-Refines :
      (actions : List (Action F)) (e : DistributionEngine F) → Refines (acts actions (start e))
  acts_start-Refines actions e = acts-Refines actions (start e) (start-Refines e)

-- ===== src/Gateway/Stream/Leaked.antt =====
-- What an exception of the snapshot store in `client_dispatch_loop` does to the end of the
-- connection, `websocket_stream` (src/gateway/gateway.py).
use realtime_market_data_pla.Common.{
  ◌≡◌, refl, sym, ap, ◌∙◌, true, false, List, [], ◌∷◌, ◌++◌, nat_Key, string_Key, pair_Key,
  append-nil, append_assoc, Bool-cases, inl, inr, String, Bool, arith, All,
}
use realtime_market_data_pla.Models.{Numbers, MarketEvent}
use realtime_market_data_pla.Gateway.Dispatch.{
  dispatch_loop, dispatch, act, on_gap, Turn, arrives, other, failed,
}
use realtime_market_data_pla.Gateway.Registry.{Handle}
use realtime_market_data_pla.Gateway.Registry.Cleanup.{is_subscriber}
use realtime_market_data_pla.Gateway.Lifecycle.{Gateway, Operation, operate, operates, opens}
use realtime_market_data_pla.Gateway.Lifecycle.Kept.{IsOther, operates-IsRegistered}
use realtime_market_data_pla.Gateway.Stream.{Setting, Round, serve, websocket_stream}
use realtime_market_data_pla.Session.{ClientSession, classify_sequence, gap}
use realtime_market_data_pla.Common.Dict.{lookup}
use realtime_market_data_pla.Aggregator.{is_raw}

module _ {F : Type 0} ⦃n : Numbers F⦄ where
  -- A loop that has come through its first turns goes on with the others.
  dispatch_loop-append :
      (before later : List (Turn F)) (s : ClientSession F)
      → (dispatch_loop before s).running ≡ true
      → let rest = dispatch_loop later (dispatch_loop before s).session in
        ((dispatch_loop (before ++ later) s).running ≡ rest.running)
        × ((dispatch_loop (before ++ later) s).delivered
            ≡ (dispatch_loop before s).delivered ++ rest.delivered)
  unfolding dispatch_loop
  dispatch_loop-append [] later s h = (refl, refl)
  dispatch_loop-append (other task ∷ before) later s h =
      dispatch_loop-append before later (task s) h
  dispatch_loop-append (arrives fetch meanwhile event ∷ before) later s h =
      let first = dispatch fetch meanwhile event s in
      elim (Bool-cases first.running) [
        | inl goes_on ↦
            let (runs, takes) = dispatch_loop-append before later first.session (rw goes_on at h) in
            rw (goes_on, dispatch_loop)
              (
                runs,
                ap (◌++◌ first.delivered) takes
                    ∙ sym (
                        append_assoc first.delivered (dispatch_loop before first.session).delivered
                          (dispatch_loop later
                            (dispatch_loop before first.session).session).delivered),
              )
        | inr ends ↦ absurd (ground arith)
      ]

  -- A gap whose snapshot cannot be fetched ends the loop, whatever is to come.
  failing_turn :
      (meanwhile : ClientSession F → ClientSession F) (event : MarketEvent F)
      (later : List (Turn F)) (s : ClientSession F)
      → (classify_sequence event.symbol event.seq (is_raw s.aggregator.mode) s).0 ≡ gap
      → ((dispatch_loop (arrives failed meanwhile event ∷ later) s).running ≡ false)
        × ((dispatch_loop (arrives failed meanwhile event ∷ later) s).delivered ≡ [])
  unfolding dispatch_loop dispatch act on_gap
  failing_turn meanwhile event later s h = rw h (refl, refl)

  -- If a client's dispatch loop comes to an event that is a gap, and the fetch of its snapshot
  -- raises, then the loop delivers nothing more, whatever turns follow. And if the session is
  -- registered for a symbol when the connection ends, it stands in the sessions of the gateway as
  -- before, and stays registered for the symbol, whatever other sessions and Redis do later.
  pub websocket_stream_leaks :
      (c : Setting F) (rounds : List (Round F)) (before later : List (Turn F))
      (meanwhile : ClientSession F → ClientSession F) (event : MarketEvent F) (ok : String → Bool)
      (h : Handle) (s : ClientSession F) (g : Gateway F) (j : String) (os : List (Operation F))
      → (dispatch_loop before s).running ≡ true
      → (classify_sequence event.symbol event.seq
          (is_raw (dispatch_loop before s).session.aggregator.mode)
          (dispatch_loop before s).session).0
        ≡ gap
      → is_subscriber h j (serve c rounds h (operate c.prefix (opens h s) g)).registry.subscriptions
        ≡ true
      → All (IsOther h) os
      → let turns = before ++ arrives failed meanwhile event ∷ later in
        let closed = websocket_stream c rounds turns ok h s g in
        ((dispatch_loop turns s).delivered ≡ (dispatch_loop before s).delivered)
        × (lookup s.client_id closed.all_sessions
            ≡ lookup s.client_id (serve c rounds h (operate c.prefix (opens h s) g)).all_sessions)
        × (is_subscriber h j (operates c.prefix os closed).registry.subscriptions ≡ true)
  unfolding websocket_stream
  websocket_stream_leaks c rounds before later meanwhile event ok h s g j os runs gapped registered
        others =
      let (ends, takes) =
        dispatch_loop-append before (arrives failed meanwhile event ∷ later) s runs in
      let (dead, nothing) =
        failing_turn meanwhile event later (dispatch_loop before s).session gapped in
      let served = serve c rounds h (operate c.prefix (opens h s) g) in
      (
        takes
            ∙ ap (◌++◌ (dispatch_loop before s).delivered) nothing
            ∙ append-nil (dispatch_loop before s).delivered,
        rw (ends ∙ dead) refl,
        rw (ends ∙ dead) (operates-IsRegistered c.prefix h j os served others registered),
      )

-- ===== src/Gateway/Stream.antt =====
-- The WebSocket endpoint of src/gateway/gateway.py: `websocket_stream`, and the steps of
-- `_subscribe` before the answer of the store. `json.loads` and `str.upper` are parameters.
pub mod Closed
pub mod Fatal
pub mod Leaked
pub mod Overflow
pub mod Raises
use realtime_market_data_pla.Common.{
  ℕ, zero, suc, ◌+◌, ◌-◌, ◌*◌, ◌/◌, ◌%◌, ◌≤◌, ◌<◌, min, max, String, ◌≡◌, refl, sym, ap, ap₂, subst,
  ◌∙◌, ◌≢◌, ◌↔◌, ◌⊎◌, inl, inr, Bool, true, false, not, ◌&&◌, ◌||◌, Option, none, some, List, [],
  ◌∷◌, ◌++◌, map, append-nil, append_assoc, arith, dec_lt, length, drop, take, last_n,
  length-append, All, All-append, All-map, contains, discard, contains-append_one, All-contains,
  ltb, leb, if◌then◌else◌, Key, ◌==◌, nat_Key, string_Key, pair_Key, beq_refl, Bool-cases,
  Option-cases,
}
use realtime_market_data_pla.Models.{
  Numbers, Json, Fields, get, obj, str, field, end, Message, null,
}
use realtime_market_data_pla.Gateway.PubSub.{subscribe_pubsub_symbol, event_channel}
use realtime_market_data_pla.Parsing.Requests.{
  ParsedFilter, parse_subscription_filter, filter, no_filter, refused, raised,
}
use Prim.Native.String.{◌++◌ as concat}
use realtime_market_data_pla.Common.Dict.{get_or}
use realtime_market_data_pla.Gateway.Dispatch.{Fetch, Turn, dispatch_loop}
use realtime_market_data_pla.Gateway.Lifecycle.{
  Operation, operate, operates, try_subscribe, Gateway, tries, replies, completes, cleans, opens,
  abandons, unsubscribes,
}
use realtime_market_data_pla.Gateway.Registry.{Handle}
use realtime_market_data_pla.Session.{SubscriptionFilter, ClientSession}

-- What a message of a client asks for. `raises` is an exception that ends the connection: the
-- message is no object, or its symbol no text.
pub data Request (F : Type 0) : Type 0 where
  invalid_json : Request F
  raises : Request F
  symbol_required : Request F
  subscribe_request : String → Json F → Request F
  unsubscribe_request : String → Request F
  unknown_action : Option (Json F) → Request F

-- What the rest of the program does meanwhile, and answers: how the attempts at the channel go, with
-- what other tasks do in the pause behind each; what they do while the store answers; the snapshot;
-- and whether Redis gives up the channel.
pub record Answers (F : Type 0) : Type 0 where
  pub attempts : List (Bool × List (Operation F))
  pub waiting : List (Operation F)
  pub fetch : Fetch F
  pub given_up : Bool

-- One round of the loop: other tasks work, then a message arrives.
pub data Round (F : Type 0) : Type 0 where
  meanwhile : Operation F → Round F
  receives : String → Answers F → Round F

-- `{"error": text}`
abbrev pub error_message : {F : Type 0} → String → Message F
error_message text = field "error" (str text) end

module _ {F : Type 0} where
  -- the choice by `action`
  unfoldable pub read_action : Option (Json F) → String → Json F → Request F
  read_action (some (str action)) symbol payload =
      if action == "subscribe"
      then subscribe_request symbol payload
      else if action == "unsubscribe"
      then unsubscribe_request symbol
      else unknown_action (some (str action))
  read_action action symbol payload = unknown_action action

module _ {F : Type 0} (upper : String → String) where
  -- `msg.get("symbol", "").upper()`; `none` is an `AttributeError`.
  unfoldable pub read_symbol : Fields F → Option String
  unfolding get
  read_symbol msg = elim (get "symbol" msg) [
    | none ↦ some (upper "")
    | some (str t) ↦ some (upper t)
    | some _ ↦ none
  ]

  unfoldable pub read_fields : Fields F → Request F
  unfolding read_symbol read_action get
  read_fields msg = elim (read_symbol msg) [
    | none ↦ raises
    | some symbol ↦
        if symbol == ""
        then symbol_required
        else read_action (get "action" msg) symbol (get_or (get "filter" msg) null)
  ]

module _ {F : Type 0} (loads : String → Option (Json F)) (upper : String → String) where
  -- the message up to its handler
  unfoldable pub read_message : String → Request F
  unfolding read_fields
  read_message raw = elim (loads raw) [
    | none ↦ invalid_json
    | some (obj msg) ↦ read_fields upper msg
    | some _ ↦ raises
  ]

-- What a client runs under: the prefix of the channels, `json.loads`, `str.upper`, the text of an
-- `action`, and that of the `ValueError` of a filter.
pub record Setting (F : Type 0) : Type 0 where
  pub prefix : String
  pub loads : String → Option (Json F)
  pub upper : String → String
  pub text_of : Option (Json F) → String
  pub filter_error : Json F → String

module _ {F : Type 0} ⦃n : Numbers F⦄ (c : Setting F) where
  -- the attempts of `_ensure_pubsub_subscription`, and whether one succeeds
  unfoldable pub ensure_tries :
      List (Bool × List (Operation F)) → Handle → String → Gateway F → Gateway F × Bool
  unfolding try_subscribe subscribe_pubsub_symbol event_channel operates
  ensure_tries [] h symbol g = (g, false)
  ensure_tries ((ok, pause) ∷ attempts) h symbol g =
      let g' = operate c.prefix (tries ok h symbol) g in
      let later = ensure_tries attempts h symbol (operates c.prefix pause g') in
      if (subscribe_pubsub_symbol ok (event_channel c.prefix symbol) g.channels).1
      then (g', true)
      else later

  -- `_subscribe` with a filter that is parsed
  unfoldable pub subscribe_with :
      Handle → String → Option (SubscriptionFilter F) → Answers F → Gateway F → Gateway F
  unfolding ensure_tries operate operates
  subscribe_with h symbol f a g =
      let (g', taken) = ensure_tries (take 5 a.attempts) h symbol g in
      if taken
      then operate c.prefix (completes a.given_up h symbol f a.fetch)
          (operates c.prefix a.waiting g')
      else operate c.prefix (abandons a.given_up symbol) (
          operate c.prefix
            (replies h (error_message (concat "subscription unavailable for " symbol))) g')

  -- `_subscribe`, with whether the connection goes on: `OverflowError` is not caught.
  unfoldable pub subscribe_parsed :
      Handle → String → String → ParsedFilter F → Answers F → Gateway F → Gateway F × Bool
  unfolding subscribe_with operate
  subscribe_parsed h symbol text no_filter a g = (subscribe_with h symbol none a g, true)
  subscribe_parsed h symbol text (filter f) a g = (subscribe_with h symbol (some f) a g, true)
  subscribe_parsed h symbol text refused a g =
      (operate c.prefix (replies h (error_message text)) g, true)
  subscribe_parsed h symbol text raised a g = (g, false)

  -- the rest of a round of the loop
  unfoldable pub handle : Handle → Request F → Answers F → Gateway F → Gateway F × Bool
  unfolding subscribe_parsed operate parse_subscription_filter
  handle h invalid_json a g = (operate c.prefix (replies h (error_message "invalid json")) g, true)
  handle h raises a g = (g, false)
  handle h symbol_required a g =
      (operate c.prefix (replies h (error_message "symbol required")) g, true)
  handle h (subscribe_request symbol payload) a g =
      subscribe_parsed h symbol (c.filter_error payload) (parse_subscription_filter payload) a g
  handle h (unsubscribe_request symbol) a g =
      (operate c.prefix (unsubscribes a.given_up h symbol) g, true)
  handle h (unknown_action action) a g = (
    operate c.prefix (replies h (error_message (concat "unknown action: " (c.text_of action)))) g,
    true,
  )

  -- The loop, up to the end of the connection: where the rounds end, the client or the writer has
  -- ended it.
  unfoldable pub serve : List (Round F) → Handle → Gateway F → Gateway F
  unfolding handle read_message operate
  serve [] h g = g
  serve (meanwhile o ∷ rounds) h g = serve rounds h (operate c.prefix o g)
  serve (receives raw a ∷ rounds) h g =
      let (g', goes_on) = handle h (read_message c.loads c.upper raw) a g in
      let rest = serve rounds h g' in if goes_on then rest else g'

  -- `websocket_stream`, with the turns of its dispatch loop and what Redis does with the channels
  -- that the cleanup gives up. A dispatch loop that has ended with an exception raises it again at
  -- `await dispatch_task`, before the cleanup.
  unfoldable pub websocket_stream :
      List (Round F)
      → List (Turn F)
      → (String → Bool)
      → Handle
      → ClientSession F
      → Gateway F
      → Gateway F
  unfolding serve operate dispatch_loop
  websocket_stream rounds turns ok h s g =
      let served = serve rounds h (operate c.prefix (opens h s) g) in
      if (dispatch_loop turns s).running then operate c.prefix (cleans ok h) served else served

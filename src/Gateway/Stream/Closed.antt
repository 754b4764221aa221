-- ===== src/Gateway/Stream/Closed.antt =====
-- What a connection that has ended leaves behind (src/gateway/gateway.py).
use realtime_market_data_pla.Common.{
  String, ◌≡◌, refl, sym, ap, subst, ◌∙◌, Bool, true, false, Option, none, some, List, [], ◌∷◌,
  ◌++◌, take, if◌then◌else◌, nat_Key, string_Key, pair_Key,
}
use Prim.Native.String.{◌++◌ as concat}
use realtime_market_data_pla.Gateway.PubSub.{subscribe_pubsub_symbol, event_channel}
use realtime_market_data_pla.Gateway.Stream.{
  raises, symbol_required, invalid_json, unsubscribe_request, subscribe_request, unknown_action,
  handle, serve, receives, meanwhile, read_message, Setting, subscribe_with, subscribe_parsed,
  Round, ensure_tries, Answers, Request, error_message, websocket_stream,
}
use realtime_market_data_pla.Parsing.Requests.{
  parse_subscription_filter, filter, no_filter, refused, raised, ParsedFilter,
}
use realtime_market_data_pla.Gateway.Lifecycle.{
  Gateway, operates, Operation, operate, tries, replies, completes, abandons, unsubscribes,
  fresh_gateway, opens, cleans,
}
use realtime_market_data_pla.Models.{Numbers}
use realtime_market_data_pla.Gateway.Dispatch.{Turn, dispatch_loop}
use realtime_market_data_pla.Gateway.Registry.{Handle}
use realtime_market_data_pla.Session.{SubscriptionFilter, ClientSession}
use realtime_market_data_pla.Common.Dict.{lookup}
use realtime_market_data_pla.Gateway.Lifecycle.Left.{IsGone, operates_clean-IsGone}
use realtime_market_data_pla.Gateway.Lifecycle.Present.{
  operates-IsPresent, open-IsPresent, IsPresent,
}

module _ {F : Type 0} (prefix : String) where
  operates_append :
      (os later : List (Operation F)) (g : Gateway F)
      → operates prefix (os ++ later) g ≡ operates prefix later (operates prefix os g)
  unfolding operates
  operates_append [] later g = refl
  operates_append (o ∷ os) later g = operates_append os later (operate prefix o g)

  -- Some operations lead from the one gateway to the other.
  abbrev pub IsRun : Gateway F → Gateway F → Type 0
  IsRun g g' = (os : List (Operation F)) × (operates prefix os g ≡ g')

  IsRun-refl : (g : Gateway F) → IsRun g g
  unfolding operates
  IsRun-refl g = ([], refl)

  IsRun-then : (o : Operation F) (g g' : Gateway F) → IsRun g g' → IsRun g (operate prefix o g')
  unfolding operates
  IsRun-then o g g' (os, e) =
      (os ++ o ∷ [], operates_append os (o ∷ []) g ∙ ap (operate prefix o) e)

  operates-IsRun :
      (os : List (Operation F)) (g g' : Gateway F) → IsRun g g' → IsRun g (operates prefix os g')
  operates-IsRun os g g' (before, e) =
      (before ++ os, operates_append before os g ∙ ap (operates prefix os) e)

  IsRun-if : (b : Bool) (g x y : Gateway F) → IsRun g x → IsRun g y → IsRun g (if b then x else y)
  IsRun-if true g x y h k = h
  IsRun-if false g x y h k = k

  IsRun-either :
      (b : Bool) (g x : Gateway F) (y : Gateway F × Bool)
      → IsRun g x
      → IsRun g y.0
      → IsRun g (if b then (x, true) else y).0
  IsRun-either true g x y h k = h
  IsRun-either false g x y h k = k

module _ {F : Type 0} ⦃n : Numbers F⦄ (c : Setting F) where
  tries-IsRun :
      (attempts : List (Bool × List (Operation F))) (h : Handle) (symbol : String) (g x : Gateway F)
      → IsRun c.prefix g x
      → IsRun c.prefix g (ensure_tries c attempts h symbol x).0
  unfolding ensure_tries
  tries-IsRun [] h symbol g x v = v
  tries-IsRun ((ok, pause) ∷ attempts) h symbol g x v =
      let x' = operate c.prefix (tries ok h symbol) x in
      let v' = IsRun-then c.prefix (tries ok h symbol) g x v in
      let y' = operates c.prefix pause x' in
      IsRun-either c.prefix
        (subscribe_pubsub_symbol ok (event_channel c.prefix symbol) x.channels).1 g x'
        (ensure_tries c attempts h symbol y') v'
        (tries-IsRun attempts h symbol g y' (operates-IsRun c.prefix pause g x' v'))

  subscribe_with-IsRun :
      (h : Handle) (symbol : String) (f : Option (SubscriptionFilter F)) (a : Answers F)
      (g x : Gateway F)
      → IsRun c.prefix g x
      → IsRun c.prefix g (subscribe_with c h symbol f a x)
  unfolding subscribe_with
  subscribe_with-IsRun h symbol f a g x v =
      let (x', taken) = ensure_tries c (take 5 a.attempts) h symbol x in
      let v' = tries-IsRun (take 5 a.attempts) h symbol g x v in
      let m = error_message (concat "subscription unavailable for " symbol) in
      IsRun-if c.prefix taken g
        (operate c.prefix (completes a.given_up h symbol f a.fetch)
          (operates c.prefix a.waiting x'))
        (operate c.prefix (abandons a.given_up symbol) (operate c.prefix (replies h m) x'))
        (IsRun-then c.prefix (completes a.given_up h symbol f a.fetch) g
          (operates c.prefix a.waiting x') (operates-IsRun c.prefix a.waiting g x' v'))
        (IsRun-then c.prefix (abandons a.given_up symbol) g (operate c.prefix (replies h m) x')
          (IsRun-then c.prefix (replies h m) g x' v'))

  parsed-IsRun :
      (h : Handle) (symbol text : String) (p : ParsedFilter F) (a : Answers F) (g x : Gateway F)
      → IsRun c.prefix g x
      → IsRun c.prefix g (subscribe_parsed c h symbol text p a x).0
  unfolding subscribe_parsed
  parsed-IsRun h symbol text no_filter a g x v = subscribe_with-IsRun h symbol none a g x v
  parsed-IsRun h symbol text (filter f) a g x v = subscribe_with-IsRun h symbol (some f) a g x v
  parsed-IsRun h symbol text refused a g x v =
      IsRun-then c.prefix (replies h (error_message text)) g x v
  parsed-IsRun h symbol text raised a g x v = v

  handle-IsRun :
      (h : Handle) (request : Request F) (a : Answers F) (g x : Gateway F)
      → IsRun c.prefix g x
      → IsRun c.prefix g (handle c h request a x).0
  unfolding handle
  handle-IsRun h invalid_json a g x v =
      IsRun-then c.prefix (replies h (error_message "invalid json")) g x v
  handle-IsRun h raises a g x v = v
  handle-IsRun h symbol_required a g x v =
      IsRun-then c.prefix (replies h (error_message "symbol required")) g x v
  handle-IsRun h (subscribe_request symbol payload) a g x v =
      parsed-IsRun h symbol (c.filter_error payload) (parse_subscription_filter payload) a g x v
  handle-IsRun h (unsubscribe_request symbol) a g x v =
      IsRun-then c.prefix (unsubscribes a.given_up h symbol) g x v
  handle-IsRun h (unknown_action action) a g x v =
      IsRun-then c.prefix (replies h (error_message (concat "unknown action: " (c.text_of action))))
        g x v

  serve-IsRun :
      (rounds : List (Round F)) (h : Handle) (g x : Gateway F)
      → IsRun c.prefix g x
      → IsRun c.prefix g (serve c rounds h x)
  unfolding serve
  serve-IsRun [] h g x v = v
  serve-IsRun (meanwhile o ∷ rounds) h g x v =
      serve-IsRun rounds h g (operate c.prefix o x) (IsRun-then c.prefix o g x v)
  serve-IsRun (receives raw a ∷ rounds) h g x v =
      let request = read_message c.loads c.upper raw in
      let (x', goes_on) = handle c h request a x in
      let v' = handle-IsRun h request a g x v in
      IsRun-if c.prefix goes_on g (serve c rounds h x') x' (serve-IsRun rounds h g x' v') v'

  serve-IsPresent :
      (rounds : List (Round F)) (h : Handle) (x : Gateway F)
      → IsPresent h x.registry.sessions
      → IsPresent h (serve c rounds h x).registry.sessions
  serve-IsPresent rounds h x here =
      let (os, e) = serve-IsRun rounds h x x (IsRun-refl c.prefix x) in
      subst (λ y. IsPresent h y.registry.sessions) e (operates-IsPresent c.prefix h os x here)

  clean-IsGone :
      (ok : String → Bool) (h : Handle) (x : Gateway F)
      → IsRun c.prefix fresh_gateway x
      → IsPresent h x.registry.sessions
      → (s : ClientSession F) × (lookup h x.registry.sessions ≡ some s)
        × IsGone h s x (operate c.prefix (cleans ok h) x)
  clean-IsGone ok h x (os, e) (s, here) = (
    s,
    here,
    subst (λ y. IsGone h s y (operate c.prefix (cleans ok h) y)) e
        (operates_clean-IsGone c.prefix os ok h s
          (subst (λ y. lookup h y.registry.sessions ≡ some s) (sym e) here)),
  )

  -- Whatever has happened to the gateway before, whatever a client sends on its connection, and
  -- whatever the rest of the program does meanwhile: if its dispatch loop has not ended with an
  -- exception, then once the connection has ended, its session is registered for no symbol, waits
  -- for none and is no session of the gateway; the other sessions are registered for what they were
  -- just before.
  pub websocket_stream-IsGone :
      (os : List (Operation F)) (rounds : List (Round F)) (turns : List (Turn F))
      (ok : String → Bool) (h : Handle) (s : ClientSession F)
      → (dispatch_loop turns s).running ≡ true
      → lookup h (operates c.prefix os fresh_gateway).registry.sessions ≡ none
      → (s' : ClientSession F) × (lookup h
            (serve c rounds h
              (operate c.prefix (opens h s) (operates c.prefix os fresh_gateway))).registry.sessions
          ≡ some s')
        × IsGone h s'
            (serve c rounds h (operate c.prefix (opens h s) (operates c.prefix os fresh_gateway)))
            (websocket_stream c rounds turns ok h s (operates c.prefix os fresh_gateway))
  unfolding websocket_stream
  websocket_stream-IsGone os rounds turns ok h s runs new =
      let g = operates c.prefix os fresh_gateway in
      let opened = operate c.prefix (opens h s) g in
      rw runs (
        clean-IsGone ok h (serve c rounds h opened)
          (serve-IsRun rounds h fresh_gateway opened
            (IsRun-then c.prefix (opens h s) fresh_gateway g (os, refl)))
          (serve-IsPresent rounds h opened (open-IsPresent c.prefix h s g new)))

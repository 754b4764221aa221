-- ===== src/Storage/History/Affected.antt =====
-- `insert_ticks` of src/storage/history_store.py, and the count that it reads from the database's
-- answer.
use realtime_market_data_pla.Common.{
  String, ◌≡◌, refl, sym, ap, subst, ◌∙◌, ◌⊎◌, inl, inr, Bool, true, Option, none, some, List, [],
  ◌∷◌, arith, length, All, if◌then◌else◌, ◌==◌, nat_Key, string_Key, pair_Key,
}
use realtime_market_data_pla.Common.Int.{ℤ, pos}
use realtime_market_data_pla.Models.{MarketEvent}
use realtime_market_data_pla.Storage.History.{
  connect_then, DatabaseError, Outcome, raises, HistoryStore, returns, named,
}
use Prim.Native.Char.{code}
use Prim.Native.String.{◌++◌ as concat}
use text.Mathlib.TextLemmas.{nil-append, cons-append}
use realtime_market_data_pla.Common.Dict.{get_or}

-- A row of `market_ticks` before it is inserted.
pub record Row (F : Type 0) : Type 0 where
  pub event_time : ℤ
  pub symbol : String
  pub seq : ℤ
  pub bid : F
  pub ask : F
  pub bid_size : ℤ
  pub ask_size : ℤ

-- `result.rsplit(" ", 1)[1]`; `none` is an `IndexError`.
unfoldable pub after_last_space : String → Option String
after_last_space String.[] = none
after_last_space (String.◌∷◌ c s) = elim (after_last_space s) [
  | some t ↦ some t
  | none ↦ if code c == 32 then some s else none
]

-- `_rows_affected`
unfoldable pub rows_affected : (String → Option ℤ) → String → ℤ
unfolding after_last_space
rows_affected int_of_text result = elim (after_last_space result) [
  | none ↦ pos 0
  | some t ↦ get_or (int_of_text t) (pos 0)
]

module _ {F : Type 0} (is_valid_ms : ℤ → Bool) where
  -- `_event_to_row`; `none` is an exception of `datetime.fromtimestamp`.
  unfoldable pub event_to_row : MarketEvent F → Option (Row F)
  event_to_row e =
      if is_valid_ms e.event_ts
      then some (record {
        event_time = e.event_ts;
        symbol = e.symbol;
        seq = e.seq;
        bid = e.bid;
        ask = e.ask;
        bid_size = e.bid_size;
        ask_size = e.ask_size;
      })
      else none

  -- `[_event_to_row(event) for event in events]`
  unfoldable pub events_to_rows : List (MarketEvent F) → Option (List (Row F))
  unfolding event_to_row
  events_to_rows [] = some []
  events_to_rows (e ∷ events) = elim (event_to_row e) [
    | none ↦ none
    | some row ↦ elim (events_to_rows events) [ none ↦ none | some rows ↦ some (row ∷ rows) ]
  ]

module _ {F : Type 0} (int_of_text : String → Option ℤ) (is_valid_ms : ℤ → Bool)
    (execute : List (Row F) → String ⊎ DatabaseError) where
  -- the `INSERT`, whose exceptions leave the call as they are
  unfoldable pub execute_insert : Option (List (Row F)) → Outcome ℤ
  unfolding rows_affected
  execute_insert none = raises (named "ValueError")
  execute_insert (some rows) = elim (execute rows) [
    | inl result ↦ returns (rows_affected int_of_text result)
    | inr e ↦ raises e
  ]

  unfoldable pub insert_ticks :
      Option DatabaseError → List (MarketEvent F) → HistoryStore → HistoryStore × Outcome ℤ
  unfolding connect_then execute_insert events_to_rows
  insert_ticks refusal [] store = (store, returns (pos 0))
  insert_ticks refusal (e ∷ events) store =
      connect_then refusal (λ ready. execute_insert (events_to_rows is_valid_ms (e ∷ events))) store

after_last_space-append :
    (front t u : String) → after_last_space t ≡ some u → after_last_space (concat front t) ≡ some u
unfolding after_last_space
after_last_space-append String.[] t u h = rw (nil-append t) h
after_last_space-append (String.◌∷◌ c s) t u h =
    rw (cons-append c s t, after_last_space, after_last_space-append s t u h) refl

after_last_space-space :
    (t : String) → after_last_space t ≡ none → after_last_space (concat " " t) ≡ some t
unfolding after_last_space
after_last_space-space t h =
    subst (λ x. after_last_space x ≡ some t)
      (sym (cons-append " " "" t ∙ ap (String.◌∷◌ " ") (nil-append t)))
      (rw (h, after_last_space) refl)

connect_then-ready :
    {A : Type 0} (next : HistoryStore → Outcome A) (store : HistoryStore)
    → (connect_then none next store).1 ≡ next (record { has_pool = true })
unfolding connect_then
connect_then-ready next store = ground arith

module _ {F : Type 0} (is_valid_ms : ℤ → Bool) where
  events_to_rows-valid :
      (events : List (MarketEvent F))
      → All (λ e. is_valid_ms e.event_ts ≡ true) events
      → (rows : List (Row F)) × (events_to_rows is_valid_ms events ≡ some rows)
        × (length rows ≡ length events)
  unfolding events_to_rows event_to_row
  events_to_rows-valid [] valid = ([], refl, refl)
  events_to_rows-valid (e ∷ events) valid =
      let (rows, made, len) = events_to_rows-valid events valid.1 in
      let row : Row F = record {
        event_time = e.event_ts;
        symbol = e.symbol;
        seq = e.seq;
        bid = e.bid;
        ask = e.ask;
        bid_size = e.bid_size;
        ask_size = e.ask_size;
      } in
      (row ∷ rows, rw (valid.0, event_to_row, made, events_to_rows) refl, omega (arith, len))

module _ {F : Type 0} (int_of_text : String → Option ℤ) (is_valid_ms : ℤ → Bool)
    (execute : List (Row F) → String ⊎ DatabaseError) where
  -- If each event has a time in range and the database answers the rows with a tag whose last word
  -- is a number, then `insert_ticks` returns that number, on an open pool or a new one.
  pub insert_ticks-rows_affected :
      (e : MarketEvent F) (events : List (MarketEvent F)) (store : HistoryStore)
      (command word : String) (count : ℤ)
      → All (λ x. is_valid_ms x.event_ts ≡ true) (e ∷ events)
      → ((rows : List (Row F))
          → length rows ≡ length (e ∷ events)
          → execute rows ≡ inl (concat command (concat " " word)))
      → after_last_space word ≡ none
      → int_of_text word ≡ some count
      → (insert_ticks int_of_text is_valid_ms execute none (e ∷ events) store).1 ≡ returns count
  unfolding insert_ticks connect_then execute_insert rows_affected
  insert_ticks-rows_affected e events store command word count valid answers plain number =
      let (rows, made, len) = events_to_rows-valid is_valid_ms (e ∷ events) valid in
      let last =
        after_last_space-append command (concat " " word) word
          (after_last_space-space word plain) in
      let ready =
        connect_then-ready
          (λ ready.
            execute_insert int_of_text is_valid_ms execute
              (events_to_rows is_valid_ms (e ∷ events)))
          store in
      ready ∙ rw (made, execute_insert, answers rows len, last, rows_affected, number) refl

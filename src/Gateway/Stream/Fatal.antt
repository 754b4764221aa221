-- ===== src/Gateway/Stream/Fatal.antt =====
-- Which requests end a connection (src/gateway/gateway.py), up to the object that they are read from.
use realtime_market_data_pla.Common.{
  ◌≡◌, Option, none, some, arith, nat_Key, string_Key, pair_Key, ◌↔◌, ◌⊎◌, true, false, Bool-cases,
  inl, inr, String, Bool, if◌then◌else◌, ◌==◌, refl, subst, sym,
}
use realtime_market_data_pla.Models.{
  Numbers, Json, get, obj, null, int, float, str, bool, Fields, arr,
}
use realtime_market_data_pla.Gateway.Stream.Overflow.{Overflows}
use realtime_market_data_pla.Gateway.Stream.{
  Request, read_action, subscribe_request, read_symbol, raises, symbol_required, read_fields,
}
use realtime_market_data_pla.Common.Dict.{get_or}

pub iff_trans : {P Q R : Type 0} → P ↔ Q → Q ↔ R → P ↔ R
iff_trans (f, g) (f', g') = (λ p. f' (f p), λ r. g (g' r))

or_second : {Q : Type 0} → ⊥ ⊎ Q → Q
or_second (inl bad) = absurd bad
or_second (inr q) = q

iff_second : {P Q : Type 0} → P ↔ Q → P ↔ (⊥ ⊎ Q)
iff_second (f, g) = (λ p. inr (f p), λ q. g (or_second q))

module _ {F : Type 0} where
  -- A symbol that is there and no text.
  abbrev pub IsNotText : Option (Json F) → Type 0
  IsNotText none = ⊥
  IsNotText (some (str t)) = ⊥
  IsNotText (some v) = Unit

  -- A symbol that is a text, or absent, and not empty once it is in capitals.
  abbrev pub IsNamed : (String → String) → Option (Json F) → Type 0
  IsNamed upper none = (upper "" == "") ≡ false
  IsNamed upper (some (str t)) = (upper t == "") ≡ false
  IsNamed upper (some v) = ⊥

module _ {F : Type 0} ⦃n : Numbers F⦄ where
  -- A JSON value that no handler answers: no object, an object whose symbol is no text, or a
  -- subscription to a symbol whose filter overflows.
  abbrev pub IsUnanswered : (String → String) → Json F → Type 0
  IsUnanswered upper (obj msg) =
      IsNotText (get "symbol" msg)
      ⊎ (IsNamed upper (get "symbol" msg)
          × ((get "action" msg ≡ some (str "subscribe"))
              × Overflows (get_or (get "filter" msg) null)))
  IsUnanswered upper v = Unit

  -- A request that ends the connection.
  abbrev pub IsFatal : Request F → Type 0
  IsFatal raises = Unit
  IsFatal (subscribe_request symbol payload) = Overflows payload
  IsFatal request = ⊥

  not_subscribe :
      (action : String)
      → (action == "subscribe") ≡ false
      → ◌≡◌ {A = Option (Json F)} (some (str action)) (some (str "subscribe"))
      → ⊥
  not_subscribe action other e =
      let same : action ≡ "subscribe" = ground arith in
      ground (arith, string_Key.same_iff action "subscribe")

  action-IsFatal :
      (action : Option (Json F)) (symbol : String) (payload : Json F)
      → IsFatal (read_action action symbol payload)
        ↔ ((action ≡ some (str "subscribe")) × Overflows payload)
  unfolding read_action
  action-IsFatal none symbol payload = (λ h. absurd h, λ (e, h). absurd (ground arith))
  action-IsFatal (some null) symbol payload = (λ h. absurd h, λ (e, h). absurd (ground arith))
  action-IsFatal (some (bool b)) symbol payload = (λ h. absurd h, λ (e, h). absurd (ground arith))
  action-IsFatal (some (int i)) symbol payload = (λ h. absurd h, λ (e, h). absurd (ground arith))
  action-IsFatal (some (float x)) symbol payload = (λ h. absurd h, λ (e, h). absurd (ground arith))
  action-IsFatal (some (arr xs)) symbol payload = (λ h. absurd h, λ (e, h). absurd (ground arith))
  action-IsFatal (some (obj fs)) symbol payload = (λ h. absurd h, λ (e, h). absurd (ground arith))
  action-IsFatal (some (str action)) symbol payload = elim (Bool-cases (action == "subscribe")) [
    | inl subscribes ↦
        rw subscribes
          (λ h. (ground (arith, string_Key.same_iff action "subscribe"), h), λ (e, h). h)
    | inr other ↦ rw other (elim (Bool-cases (action == "unsubscribe")) [
      | inl leaves ↦ rw leaves (λ h. absurd h, λ (e, h). absurd (not_subscribe action other e))
      | inr unknown ↦ rw unknown (λ h. absurd h, λ (e, h). absurd (not_subscribe action other e))
    ])
  ]

  named-IsFatal :
      (b : Bool) (request : Request F) {P : Type 0}
      → IsFatal request ↔ P
      → IsFatal (if b then symbol_required else request) ↔ ((b ≡ false) × P)
  named-IsFatal true request i = (λ h. absurd h, λ (e, p). absurd (ground arith))
  named-IsFatal false request (f, g) = (λ h. (refl, f h), λ (e, p). g p)

module _ {F : Type 0} ⦃n : Numbers F⦄ (upper : String → String) (msg : Fields F) where
  read_fields_of :
      (symbol : Option String)
      → read_symbol upper msg ≡ symbol
      → read_fields upper msg ≡ elim symbol [
        | none ↦ raises
        | some t ↦
            if t == ""
            then symbol_required
            else read_action (get "action" msg) t (get_or (get "filter" msg) null)
      ]
  unfolding read_fields
  read_fields_of symbol e = rw (e, read_fields) refl

  text-IsFatal :
      (t : String)
      → read_symbol upper msg ≡ some t
      → IsFatal (read_fields upper msg) ↔ (
          ⊥
          ⊎ (((t == "") ≡ false)
              × ((get "action" msg ≡ some (str "subscribe"))
                  × Overflows (get_or (get "filter" msg) null))))
  text-IsFatal t e =
      let payload = get_or (get "filter" msg) null in
      let request = read_action (get "action" msg) t payload in
      subst
        (λ r. IsFatal r ↔ (
          ⊥
          ⊎ (((t == "") ≡ false)
              × ((get "action" msg ≡ some (str "subscribe")) × Overflows payload))))
        (sym (read_fields_of (some t) e))
        (iff_second (named-IsFatal (t == "") request (action-IsFatal (get "action" msg) t payload)))

  raises-IsFatal :
      {P : Type 0} → read_symbol upper msg ≡ none → IsFatal (read_fields upper msg) ↔ (Unit {0} ⊎ P)
  raises-IsFatal {P} e =
      subst (λ r. IsFatal r ↔ (Unit {0} ⊎ P)) (sym (read_fields_of none e)) (λ h. inl tt, λ h. tt)

  read_symbol_of :
      (v : Option (Json F))
      → get "symbol" msg ≡ v
      → read_symbol upper msg
        ≡ elim v [ none ↦ some (upper "") | some (str t) ↦ some (upper t) | some _ ↦ none ]
  unfolding read_symbol
  read_symbol_of v e = rw (e, read_symbol) refl

  pub fields-IsFatal :
      (v : Option (Json F))
      → get "symbol" msg ≡ v
      → IsFatal (read_fields upper msg) ↔ (
          IsNotText v
          ⊎ (IsNamed upper v
              × ((get "action" msg ≡ some (str "subscribe"))
                  × Overflows (get_or (get "filter" msg) null))))
  fields-IsFatal none e = text-IsFatal (upper "") (read_symbol_of none e)
  fields-IsFatal (some (str t)) e = text-IsFatal (upper t) (read_symbol_of (some (str t)) e)
  fields-IsFatal (some null) e = raises-IsFatal (read_symbol_of (some null) e)
  fields-IsFatal (some (bool b)) e = raises-IsFatal (read_symbol_of (some (bool b)) e)
  fields-IsFatal (some (int x)) e = raises-IsFatal (read_symbol_of (some (int x)) e)
  fields-IsFatal (some (float x)) e = raises-IsFatal (read_symbol_of (some (float x)) e)
  fields-IsFatal (some (arr xs)) e = raises-IsFatal (read_symbol_of (some (arr xs)) e)
  fields-IsFatal (some (obj fs)) e = raises-IsFatal (read_symbol_of (some (obj fs)) e)

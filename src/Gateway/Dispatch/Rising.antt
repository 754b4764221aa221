-- ===== src/Gateway/Dispatch/Rising.antt =====
-- Sequence numbers in the order of src/gateway/gateway.py's dispatch: strictly rising.
use realtime_market_data_pla.Common.{
  ◌≡◌, Bool, true, Option, none, some, List, [], ◌∷◌, arith, nat_Key, string_Key, pair_Key,
}
use realtime_market_data_pla.Gateway.Dispatch.{is_newer}
use realtime_market_data_pla.Common.Int.{ℤ, ◌<ℤ◌}
use realtime_market_data_pla.Session.Sequence.{Advances, Decides}
use realtime_market_data_pla.Session.{next}

-- Strictly above the last number, where there is one.
abbrev pub Above : Option ℤ → ℤ → Type 0
Above none q = Unit
Above (some l) q = l <ℤ q

-- Strictly rising, from above the last number on.
abbrev pub Rising : Option ℤ → List ℤ → Type 0
Rising last [] = Unit
Rising last (q ∷ qs) = Above last q × Rising (some q) qs

pub Rising-weaken :
    (before after : Option ℤ) (qs : List ℤ)
    → Advances before after
    → Rising after qs
    → Rising before qs
Rising-weaken before after [] a r = tt
Rising-weaken none after (q ∷ qs) a r = (tt, r.1)
Rising-weaken (some l) none (q ∷ qs) a r = absurd a
Rising-weaken (some l) (some l') (q ∷ qs) a r = (omega arith, r.1)

pub is_newer-Above : (q : ℤ) (last : Option ℤ) → is_newer q last ≡ true → Above last q
unfolding is_newer
is_newer-Above q none h = tt
is_newer-Above q (some l) h = ground arith

pub Above-weaken :
    (before after : Option ℤ) (q : ℤ) → Advances before after → Above after q → Above before q
Above-weaken none after q a h = tt
Above-weaken (some l) none q a h = absurd a
Above-weaken (some l) (some l') q a h = omega arith

pub Decides-Above :
    (detect_gap : Bool) (q : ℤ) (last : Option ℤ) → Decides detect_gap q last next → Above last q
Decides-Above detect_gap q none h = tt
Decides-Above detect_gap q (some l) h = h.0

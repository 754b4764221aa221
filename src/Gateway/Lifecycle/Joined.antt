-- ===== src/Gateway/Lifecycle/Joined.antt =====
-- Who is registered for a symbol after one session joins (src/gateway/gateway.py).
use realtime_market_data_pla.Common.{
  String, ◌≡◌, true, ◌&&◌, ◌||◌, List, [], ◌∷◌, ◌++◌, arith, contains, contains-append_one,
  if◌then◌else◌, ◌==◌, nat_Key, string_Key, pair_Key, beq_refl,
}
use realtime_market_data_pla.Gateway.Registry.Cleanup.{is_subscriber}
use realtime_market_data_pla.Gateway.Lifecycle.{join}
use realtime_market_data_pla.Gateway.Registry.{Handle}
use realtime_market_data_pla.Common.Dict.{Dict, get_or, lookup, lookup-insert}

pub is_subscriber-join :
    (g h : Handle) (j symbol : String) (subs : Dict String (List Handle))
    → is_subscriber g j (join h symbol subs)
      ≡ (is_subscriber g j subs || ((symbol == j) && (g == h)))
unfolding join
is_subscriber-join g h j symbol subs =
    let members = get_or (lookup symbol subs) [] in
    let joined = if contains h members then members else members ++ h ∷ [] in
    ground (
      arith,
      lookup-insert symbol j joined subs,
      string_Key.same_iff symbol j,
      nat_Key.same_iff g h,
      contains-append_one g h members,
    )

pub is_subscriber-joined :
    (h : Handle) (symbol : String) (subs : Dict String (List Handle))
    → is_subscriber h symbol (join h symbol subs) ≡ true
is_subscriber-joined h symbol subs = ground (
  arith,
  is_subscriber-join h h symbol symbol subs,
  beq_refl {A = String} symbol,
  beq_refl {A = Handle} h,
)

-- ===== src/Network/Tests.antt =====
-- Packets on concrete routes.
use frontier_htsim.Prelude.{
  ◌-◌, ◌≡◌, refl, false, [], ◌∷◌, some, none, arith, drop, ◌>>=◌, aborted, Ensures,
}
use frontier_htsim.Network.{Packet, Route, ndp, undirected, prio_lo, bounce, send_on}
use frontier_htsim.Network.Hops.{trip, visited, trip-bounce}

abbrev there : Route
there = record { sinks = 1 ∷ 2 ∷ 3 ∷ 4 ∷ []; reverse = some (14 ∷ 13 ∷ 12 ∷ 11 ∷ []) }

abbrev on_the_way : Packet
on_the_way = record {
  type = ndp;
  size = 1500;
  oldsize = 1500;
  is_header = false;
  bounced = false;
  flags = 0;
  direction = undirected;
  route = some there;
  nexthop = 3;
  oldnexthop = 0;
  next_routed_hop = none;
  id = 1;
  flow_id = 1;
  ingressqueue = none;
  priority = prio_lo;
  trimmed_size = some 64;
  sleep_time = 0;
  sender_id = 0;
  int_info = [];
}

trip-bounce_example :
    Ensures
      (λ q es. (visited es ≡ drop (4 - 3) (14 ∷ 13 ∷ 12 ∷ 11 ∷ [])) × (send_on q ≡ aborted))
      (bounce on_the_way >>= trip 3)
trip-bounce_example =
    trip-bounce there (14 ∷ 13 ∷ 12 ∷ 11 ∷ []) on_the_way 3 refl refl refl (omega arith) refl refl
      (omega arith) (omega arith)

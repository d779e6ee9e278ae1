-- ===== src/NatProbe/Limits.antt =====
-- The limits of the probe scheduler (NatProbe/Scheduler), and the writes that keep them.
use bucky_p2p.Base.{
  ℕ, ◌≤◌, ◌≡◌, refl, Bool, true, not, ◌&&◌, ◌||◌, none, some, List, [], ◌∷◌, arith, ◌==◌, is_empty,
  countp, All, All-remove, All-insert, HashMap, get, remove, countp-insert_found,
  countp-insert-false, countp-remove-le,
}
use bucky_p2p.Base.MapTotals.{NodupKeys, NodupKeys-remove, NodupKeys-insert}
use bucky_p2p.Identity.{P2pId, id_eq}
use bucky_p2p.NatProbe.{supported_nat_probe_ports}
use bucky_p2p.NatProbe.Scheduler.{
  NatProbeScheduler, PeerProbeState, is_in_flight, has_trigger, reconfigure, write_peer,
}

-- A peer has the generation of the configuration; while its probe is out, it has the capability, there
-- are ports and no trigger waits.
abbrev pub is_peer : NatProbeScheduler → P2pId × PeerProbeState → Bool
is_peer s (id, state) =
    state.config_generation == s.config_generation
    && (not (is_in_flight (id, state))
        || (state.control_supported && not (has_trigger state) && not (is_empty s.ports)))

abbrev pub IsPeer : NatProbeScheduler → P2pId × PeerProbeState → Type 0
IsPeer s x = is_peer s x ≡ true

-- Distinct peers, each as above; at most 2048 probes are out; the ports, if any, are such as the peers
-- accept.
pub record IsScheduler (s : NatProbeScheduler) : Type 0 where
  pub unique : NodupKeys s.peers
  pub peers_ok : All (IsPeer s) s.peers
  pub capacity : countp is_in_flight s.peers ≤ 2048
  pub ports_ok : (is_empty s.ports || supported_nat_probe_ports s.ports) ≡ true

-- Writing a peer whose probe is not out.
pub insert-IsScheduler :
    (s : NatProbeScheduler) (id : P2pId) (state : PeerProbeState)
    → IsScheduler s
    → state.config_generation ≡ s.config_generation
    → state.in_flight ≡ none
    → IsScheduler (write_peer s id state)
insert-IsScheduler s id state v g h = record {
  unique = NodupKeys-insert id state s.peers v.unique;
  peers_ok = All-insert (IsPeer s) id state s.peers (ground arith) v.peers_ok;
  capacity = ground (arith, v.capacity, countp-insert-false is_in_flight id state s.peers);
  ports_ok = v.ports_ok;
}

-- Writing a peer that had a probe out, or not, as it has now.
pub update-IsScheduler :
    (s : NatProbeScheduler) (id : P2pId) (old state : PeerProbeState)
    → IsScheduler s
    → get id s.peers ≡ some old
    → IsPeer s (id, state)
    → state.in_flight ≡ old.in_flight
    → IsScheduler (write_peer s id state)
update-IsScheduler s id old state v g k h = record {
  unique = NodupKeys-insert id state s.peers v.unique;
  peers_ok = All-insert (IsPeer s) id state s.peers k v.peers_ok;
  capacity = ground (arith, v.capacity, countp-insert_found is_in_flight id old state s.peers g);
  ports_ok = v.ports_ok;
}

pub remove-IsScheduler :
    (s : NatProbeScheduler) (id : P2pId)
    → IsScheduler s
    → IsScheduler (record s { peers = remove id s.peers })
remove-IsScheduler s id v = record {
  unique = NodupKeys-remove id s.peers v.unique;
  peers_ok = All-remove (IsPeer s) id s.peers v.peers_ok;
  capacity = omega (arith, v.capacity, countp-remove-le is_in_flight id s.peers);
  ports_ok = v.ports_ok;
}

get-reconfigure-none :
    (g : ℕ) (id : P2pId) (m : HashMap P2pId PeerProbeState)
    → get id m ≡ none
    → get id (reconfigure g m) ≡ none
unfolding get
get-reconfigure-none g id [] h = refl
get-reconfigure-none g id ((j, state) ∷ m) h = ground (arith, get-reconfigure-none g id m)

NodupKeys-reconfigure :
    (g : ℕ) (m : HashMap P2pId PeerProbeState) → NodupKeys m → NodupKeys (reconfigure g m)
NodupKeys-reconfigure g [] n = tt
NodupKeys-reconfigure g ((j, state) ∷ m) n =
    (get-reconfigure-none g j m n.0, NodupKeys-reconfigure g m n.1)

All-reconfigure :
    (s : NatProbeScheduler) (m : HashMap P2pId PeerProbeState)
    → All (IsPeer s) (reconfigure s.config_generation m)
All-reconfigure s [] = tt
All-reconfigure s ((j, state) ∷ m) = (ground arith, All-reconfigure s m)

countp-reconfigure :
    (g : ℕ) (m : HashMap P2pId PeerProbeState) → countp is_in_flight (reconfigure g m) ≡ 0
countp-reconfigure g [] = refl
countp-reconfigure g ((j, state) ∷ m) = ground (arith, countp-reconfigure g m)

-- A new configuration takes every probe back.
pub reconfigure-IsScheduler :
    (s : NatProbeScheduler) (g : ℕ) (ports : List ℕ)
    → IsScheduler s
    → (is_empty ports || supported_nat_probe_ports ports) ≡ true
    → IsScheduler (record s { ports = ports; config_generation = g; peers = reconfigure g s.peers })
reconfigure-IsScheduler s g ports v h = record {
  unique = NodupKeys-reconfigure g s.peers v.unique;
  peers_ok =
      All-reconfigure
        (record s { ports = ports; config_generation = g; peers = reconfigure g s.peers }) s.peers;
  capacity = ground (arith, countp-reconfigure g s.peers);
  ports_ok = h;
}

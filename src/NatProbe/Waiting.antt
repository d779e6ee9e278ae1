-- ===== src/NatProbe/Waiting.antt =====
-- A probe that is out stays out (NatProbe/Reports) while other peers are served and the timer runs.
use bucky_p2p.Base.{◌≤◌, ◌≡◌, ◌≢◌, sym, ◌∙◌, List, [], ◌∷◌, arith, All, Timestamp, map}
use bucky_p2p.Identity.{P2pId, id_eq, P2pId-discrete}
use bucky_p2p.NatProbe.{NatProbeResult}
use bucky_p2p.NatProbe.Scheduler.{
  NatProbeScheduler, PeerProbeState, ProbeTransition, finish_expired, no_transition,
}
use bucky_p2p.NatProbe.Reports.{expire_each, expire_due}
use bucky_p2p.NatProbe.Results.{IsAnswer}
use bucky_p2p.NatProbe.Invariant.{
  ProbeCall, configures, identifies, reports, reports_profile, controls, expires, removes,
  reconciles, serve, serve_all,
}
use bucky_p2p.NatProbe.Others.{
  Untouched, finish_expired-Untouched, observe_capable_report-Untouched,
  observe_reported_profile-Untouched, observe_control-Untouched, remove_peer-Untouched,
  remove_peer_if_authority-Untouched,
}

module _ (id : P2pId) where
  -- A call before the deadline that is not for this peer, and neither configures nor names the SN.
  abbrev pub IsOther : Timestamp → Timestamp × ProbeCall → Type 0
  IsOther deadline (now, configures ports) = ⊥
  IsOther deadline (now, identifies sn) = ⊥
  IsOther deadline (now, reports peer tunnel remote version result) = peer ≢ id
  IsOther deadline (now, reports_profile peer tunnel remote profile) = peer ≢ id
  IsOther deadline (now, controls peer tunnel remote) = peer ≢ id
  IsOther deadline (now, expires) = now ≤ deadline
  IsOther deadline (now, removes peer) = peer ≢ id
  IsOther deadline (now, reconciles peer tunnel generation) = peer ≢ id

  -- The result answers the probe that is out, and could come until a deadline.
  module _ (state : PeerProbeState) (r : NatProbeResult) (deadline : Timestamp) where
    IsAnswer-Untouched :
        (s s' : NatProbeScheduler)
        → Untouched id s s'
        → IsAnswer s id state r deadline
        → IsAnswer s' id state r deadline
    IsAnswer-Untouched s s' u a = record {
      probe = a.probe;
      registered = u.0 ∙ a.registered;
      out = a.out;
      same_request = a.same_request;
      in_time = a.in_time;
      same_registration = a.same_registration;
      same_configuration = a.same_configuration;
      same_sn = a.same_sn ∙ sym u.1;
      same_peer = a.same_peer;
      version_one = a.version_one;
      capable = a.capable;
    }

    -- A probe that is in time does not expire.
    finish_expired-in_time :
        (s : NatProbeScheduler) (now : Timestamp) (t : ProbeTransition)
        → now ≤ deadline
        → IsAnswer s id state r deadline
        → (finish_expired s id now t).0 ≡ s
    unfolding finish_expired
    finish_expired-in_time s now t le a =
        let out = a.out in
        let in_time = a.in_time in rw (a.registered, finish_expired) (ground arith)

    expire_each-IsAnswer :
        (s : NatProbeScheduler) (ids : List P2pId) (now : Timestamp)
        → now ≤ deadline
        → IsAnswer s id state r deadline
        → IsAnswer (expire_each s ids now).0 id state r deadline
    unfolding expire_each
    expire_each-IsAnswer s [] now le a = a
    expire_each-IsAnswer s (peer ∷ ids) now le a =
        let s' = (finish_expired s peer now no_transition).0 in
        expire_each-IsAnswer s' ids now le (elim (P2pId-discrete peer id) [
          | no other ↦
              IsAnswer-Untouched s s' (finish_expired-Untouched id peer other s now no_transition) a
          | yes same ↦ rw same (rw (finish_expired-in_time s now no_transition le a) a)
        ])

    serve-IsAnswer :
        (s : NatProbeScheduler) (c : Timestamp × ProbeCall)
        → IsOther deadline c
        → IsAnswer s id state r deadline
        → IsAnswer (serve s c) id state r deadline
    unfolding serve expire_due
    serve-IsAnswer s (now, configures ports) other a = absurd other
    serve-IsAnswer s (now, identifies sn) other a = absurd other
    serve-IsAnswer s (now, reports peer tunnel remote version result) other a =
        IsAnswer-Untouched s _
          (observe_capable_report-Untouched id peer other s tunnel remote version result now) a
    serve-IsAnswer s (now, reports_profile peer tunnel remote profile) other a =
        IsAnswer-Untouched s _
          (observe_reported_profile-Untouched id peer other s tunnel remote profile now) a
    serve-IsAnswer s (now, controls peer tunnel remote) other a =
        IsAnswer-Untouched s _ (observe_control-Untouched id peer other s tunnel remote now) a
    serve-IsAnswer s (now, expires) le a = expire_each-IsAnswer s (map (λ x. x.0) s.peers) now le a
    serve-IsAnswer s (now, removes peer) other a =
        IsAnswer-Untouched s _ (remove_peer-Untouched id peer other s) a
    serve-IsAnswer s (now, reconciles peer tunnel generation) other a =
        IsAnswer-Untouched s _
          (remove_peer_if_authority-Untouched id peer other s tunnel generation) a

    -- A probe that is out stays out while other peers are served.
    pub serve_all-IsAnswer :
        (s : NatProbeScheduler) (calls : List (Timestamp × ProbeCall))
        → All (IsOther deadline) calls
        → IsAnswer s id state r deadline
        → IsAnswer (serve_all s calls) id state r deadline
    unfolding serve_all
    serve_all-IsAnswer s [] others a = a
    serve_all-IsAnswer s (c ∷ calls) others a =
        serve_all-IsAnswer (serve s c) calls others.1 (serve-IsAnswer s c others.0 a)

-- ===== src/NatProbe/Answers.antt =====
-- What a step before the result can and cannot change of the answer to a probe (NatProbe/Results).
use bucky_p2p.Base.{
  ◌≡◌, ◌≢◌, inl, inr, refl, Option, none, some, arith, ap, sym, ◌∙◌, HashMap, insert, get,
  get-insert, Timestamp, Option-cases, Bool-cases,
}
use bucky_p2p.Identity.{P2pId, id_eq}
use bucky_p2p.Net.{addr_eq}
use bucky_p2p.NatType.Profile.{NatProfile}
use bucky_p2p.NatProbe.{NatProbeResult}
use bucky_p2p.NatProbe.Scheduler.{
  NatProbeScheduler, PeerProbeState, ProbeTransition, finish_expired, finish_known, next_period,
  is_late, accepted_profile,
}
use bucky_p2p.NatProbe.Reports.{settle, accept_given}
use bucky_p2p.NatProbe.Results.{IsAnswer, accept_result-cases}

-- The peer that was just written is the one that is found.
pub written_peer :
    (id : P2pId) (x st : PeerProbeState) (m : HashMap P2pId PeerProbeState)
    → get id (insert id x m) ≡ some st
    → x ≡ st
written_peer id x st m h = ground (arith, get-insert id id x m)

-- No result answers for a peer that was just written without a probe.
pub written-not_answered :
    (s s2 : NatProbeScheduler) (id : P2pId) (x st : PeerProbeState) (r : NatProbeResult)
    (now : Timestamp)
    → s2.peers ≡ insert id x s.peers
    → x.in_flight ≡ none
    → ¬ IsAnswer s2 id st r now
written-not_answered s s2 id x st r now p q a =
    let out = a.out in
    let same = written_peer id x st s.peers (ap (get id) (sym p) ∙ a.registered) in
    cc (out, q, ap (λ (y : PeerProbeState). y.in_flight) same)

-- A result that answers after the expiry answers before it, and the expiry did nothing.
finish_known-IsAnswer :
    (s : NatProbeScheduler) (id : P2pId) (state st : PeerProbeState) (now : Timestamp)
    (t : ProbeTransition) (r : NatProbeResult)
    → IsAnswer (finish_known s id state now t).0 id st r now
    → IsAnswer s id st r now × ((finish_known s id state now t).1 ≡ t)
finish_known-IsAnswer s id state st now t r = elim (Bool-cases (is_late state.in_flight now)) [
  | inr q ↦ rw q (λ a. (a, refl))
  | inl q ↦ rw q (λ a. absurd (
      written-not_answered s _ id
        (record state {
          in_flight = none;
          profile = none;
          pending_trigger = none;
          next_periodic_at = next_period now;
        })
        st r now refl refl a))
]

finish_expired-IsAnswer :
    (s : NatProbeScheduler) (id : P2pId) (st : PeerProbeState) (now : Timestamp)
    (t : ProbeTransition) (r : NatProbeResult)
    → IsAnswer (finish_expired s id now t).0 id st r now
    → IsAnswer s id st r now × ((finish_expired s id now t).1 ≡ t)
unfolding finish_expired
finish_expired-IsAnswer s id st now t r = elim (Option-cases (get id s.peers)) [
  | inl e ↦ rw (e, finish_expired) (λ a. (a, refl))
  | inr (state, e) ↦ rw (e, finish_expired) (λ a. finish_known-IsAnswer s id state st now t r a)
]

-- What a report that publishes a profile shows.
abbrev pub Asked :
    NatProbeScheduler → P2pId → Option NatProbeResult → Timestamp → NatProfile → Type 0
Asked s id result now p =
    (r : NatProbeResult) × (st : PeerProbeState) × (result ≡ some r)
    × IsAnswer s id st r now
    × (accepted_profile r.profile now ≡ some p)

-- The update that a step brings before the result: none, or a withdrawal.
abbrev pub Withdraws : ProbeTransition → NatProfile → Type 0
Withdraws t p = t.profile_update ≢ some (some p)

finish_expired-Withdraws :
    (s : NatProbeScheduler) (id : P2pId) (now : Timestamp) (t : ProbeTransition) (p : NatProfile)
    → Withdraws t p
    → Withdraws (finish_expired s id now t).1 p
unfolding finish_expired
finish_expired-Withdraws s id now t p h = elim (Option-cases (get id s.peers)) [
  | inl e ↦ rw (e, finish_expired) h
  | inr (state, e) ↦ rw (e, finish_expired) (ground arith)
]

pub settle-Asked :
    (s : NatProbeScheduler) (t : ProbeTransition) (id : P2pId) (result : Option NatProbeResult)
    (now : Timestamp) (p : NatProfile)
    → Withdraws t p
    → (settle (s, t) id result now).1.profile_update ≡ some (some p)
    → Asked s id result now p
unfolding settle accept_given
settle-Asked s t id none now p w h = absurd (finish_expired-Withdraws s id now t p w h)
settle-Asked s t id (some r) now p w h =
    elim (accept_result-cases (finish_expired s id now t).0 id r now
      (finish_expired s id now t).1) [
        | inl q ↦ absurd (
            finish_expired-Withdraws s id now t p w
              (ap (λ (x : NatProbeScheduler × ProbeTransition). x.1.profile_update) (sym q) ∙ h))
        | inr (st, a, q) ↦
            let before = finish_expired-IsAnswer s id st now t r a in
            let published =
              ap (λ (x : NatProbeScheduler × ProbeTransition). x.1.profile_update) (sym q) ∙ h in
            (r, st, refl, before.0, cc published)
      ]

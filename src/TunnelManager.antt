-- ===== src/TunnelManager.antt =====
-- p2p-frame/src/tunnel/tunnel_manager.rs: the state that the tunnel manager keeps under its lock.
-- `Owners` has the rendezvous attempts and the waiters for incoming tunnels, `Upgrades` the retries by
-- which a proxy tunnel is replaced, `Entries` the registered tunnels, `Scores` the order of endpoints.
pub mod Owners
pub mod Upgrades
pub mod Entries
use bucky_p2p.Base.{
  ℕ, Bool, true, false, Option, none, some, List, [], Eq, HashMap, Duration, Timestamp,
  P2pErrorCode, ℕ_discrete,
}
use bucky_p2p.Identity.{P2pId, P2pId-discrete}
use bucky_p2p.Net.{SocketAddr, SocketAddr-discrete}
use bucky_p2p.Types.{Sequence, TunnelId}
use bucky_p2p.Tcp.Ids.{TunnelForm}
use bucky_p2p.Endpoint.{Endpoint, Protocol, Protocol-discrete}

-- An `Arc<()>`, which is compared by its address.
abbrev pub Token : Type 0
Token = ℕ

-- The sender of a oneshot channel, a `Notify` for a tunnel, a task, and a tunnel, each by its address.
abbrev pub Completer : Type 0
Completer = ℕ

abbrev pub IncomingNotify : Type 0
IncomingNotify = ℕ

abbrev pub Task : Type 0
Task = ℕ

abbrev pub TunnelRef : Type 0
TunnelRef = ℕ

-- `Instant`, in nanoseconds from a fixed one.
abbrev pub Instant : Type 0
Instant = ℕ

pub record EndpointScore : Type 0 where
  pub last_success_at : ℕ
  pub fail_count : ℕ

pub record EndpointScoreKey : Type 0 where
  pub protocol : Protocol
  pub addr : SocketAddr

unfoldable pub EndpointScoreKey-discrete : Discrete EndpointScoreKey
unfolding Protocol-discrete SocketAddr-discrete
EndpointScoreKey-discrete = hlevel (Protocol-discrete, SocketAddr-discrete)

instance abbrev pub score_key_eq : Eq EndpointScoreKey
score_key_eq = record { dec = EndpointScoreKey-discrete }

abbrev pub score_key : Endpoint → EndpointScoreKey
score_key ep = record { protocol = ep.protocol; addr = ep.addr }

-- The tuple of the remote peer, the tunnel id and the expected direction.
pub record IncomingWaitKey : Type 0 where
  pub remote_id : P2pId
  pub tunnel_id : TunnelId
  pub expected_reverse : Bool

unfoldable pub IncomingWaitKey-discrete : Discrete IncomingWaitKey
unfolding P2pId-discrete
IncomingWaitKey-discrete = hlevel (P2pId-discrete, ℕ_discrete)

instance abbrev pub wait_key_eq : Eq IncomingWaitKey
wait_key_eq = record { dec = IncomingWaitKey-discrete }

pub record IncomingWaiterEntry : Type 0 where
  pub token : Token
  pub waiter : IncomingNotify

pub record ProxyUpgradeState : Type 0 where
  pub generation : ℕ
  pub next_attempt_at : Instant
  pub retry_interval : Duration
  pub short_retry_index : ℕ
  pub in_progress : Bool

-- `cancel` and `yielded` are shared objects: operations say what they do to them.
pub record RendezvousAttemptOwner : Type 0 where
  pub seq : Sequence
  pub initiator_local : Bool
  pub cancel : Token
  pub task : Option Task
  pub expected_incoming_reverse : Option Bool
  pub tunnel_id : TunnelId
  pub yielded : Token
  pub winner_completions : List Completer
  pub token : Token

-- The message of a failure is not modelled.
pub data RendezvousWinnerCompletion : Type 0 where
  success : TunnelRef → RendezvousWinnerCompletion
  failure : P2pErrorCode → RendezvousWinnerCompletion

pub record ManagerState : Type 0 where
  pub endpoint_scores : HashMap EndpointScoreKey EndpointScore
  pub pending_reverse_waiters : HashMap IncomingWaitKey IncomingWaiterEntry
  pub proxy_upgrade_states : HashMap P2pId ProxyUpgradeState
  pub next_proxy_upgrade_generation : ℕ
  pub rendezvous_attempts : HashMap P2pId RendezvousAttemptOwner

-- The constant attributes of a tunnel, and its address.
pub record Tunnel : Type 0 where
  pub address : TunnelRef
  pub remote_id : P2pId
  pub tunnel_id : TunnelId
  pub candidate_id : ℕ
  pub form : TunnelForm
  pub is_reverse : Bool

pub record TunnelEntry : Type 0 where
  pub tunnel : Tunnel
  pub updated_at : Instant
  pub published : Bool

abbrev pub TunnelEntries : Type 0
TunnelEntries = List TunnelEntry

-- The two locks of the manager.
pub record TunnelManager : Type 0 where
  pub tunnels : HashMap P2pId TunnelEntries
  pub state : ManagerState

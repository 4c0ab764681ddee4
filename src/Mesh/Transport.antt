-- ===== src/Mesh/Transport.antt =====
-- The state of `PeatSapientTransport`, peat-mesh-sapient/src/transport.rs, with the tasks that it
-- spawned. Each received or dialled connection is a link: its task and the flag `alive` that the
-- task, the peer's record and the handles of `get_connection` share are named by the link's number.
pub mod Peers
pub mod Loops
pub mod Run
pub mod Outbound
pub mod Accounts
pub mod Order
pub mod Tracking
pub mod Follow
pub mod Refinement
pub mod Lifecycle
pub mod Stages
pub mod Stopping
pub mod Shutdown
pub mod Roles
pub mod Restart
pub mod Ending
pub use peat_sapient.Base.{get_elem?}
use peat_sapient.Base.{ℕ, zero, suc, String, Bool, Option, none, some, List, [], ◌∷◌}
use peat_sapient.Base.Dict.{Dict}

pub data SapientRole : Type 0 where
  hldmm : String → SapientRole
  dlmm : String → String → SapientRole

pub data DisconnectReason : Type 0 where
  remote_closed local_closed : DisconnectReason

-- `PeerEvent`: the peer and the time of the connection; the peer, the reason and the duration.
pub data PeerEvent : Type 0 where
  connected : String → ℕ → PeerEvent
  disconnected : String → DisconnectReason → ℕ → PeerEvent

-- One `subscribe_peer_events`: what its receiver has taken out, what waits in the channel, and
-- whether the receiver is still there.
pub record Subscriber : Type 0 where
  pub received : List PeerEvent
  pub queue : List PeerEvent
  pub listening : Bool

pub record PeerRecord : Type 0 where
  pub connected_at : ℕ
  pub link : ℕ

pub record Link : Type 0 where
  pub peer_id : String
  pub alive : Bool
  pub running : Bool

-- Where a spawned accept or connect loop stands; `serving` has the link and its time.
pub data LoopState : Type 0 where
  binding accepting dialling ended : LoopState
  serving : ℕ → ℕ → LoopState

-- Who owns the receiving end of the outbound channel: the transport before `start`, the connect
-- loop, the task of a link, the channel back to the loop, or nobody any more.
pub data Receiver : Type 0 where
  held with_loop returned dropped : Receiver
  with_link : ℕ → Receiver

pub record Transport (N : Type 0) : Type 0 where
  pub role : SapientRole
  pub peers : Dict PeerRecord
  pub event_senders : List Subscriber
  pub started : Option ℕ
  pub listener_task : Option ℕ
  pub outbound : List (List ℕ)
  pub receiver : Receiver
  -- Each write of an outbound message to a connection, with its success.
  pub writes : List (List ℕ × Bool)
  pub links : List Link
  pub loops : List LoopState
  pub mesh : N

module _ {ℓ} {A : Type ℓ} where
  abbrev pub update : ℕ → (A → A) → List A → List A
  update i f [] = []
  update zero f (x ∷ xs) = f x ∷ xs
  update (suc i) f (x ∷ xs) = x ∷ update i f xs

module _ {N : Type 0} where
  unfoldable pub new : SapientRole → N → Transport N
  new role mesh = record {
    role = role;
    peers = [];
    event_senders = [];
    started = none;
    listener_task = none;
    outbound = [];
    receiver = held;
    writes = [];
    links = [];
    loops = [];
    mesh = mesh;
  }

-- What is left in the outbound channel once this is its receiver: a tokio channel whose receiver is
-- dropped loses the messages in it.
unfoldable pub buffered : Receiver → List (List ℕ) → List (List ℕ)
buffered dropped queue = []
buffered held queue = queue
buffered with_loop queue = queue
buffered returned queue = queue
buffered (with_link l) queue = queue

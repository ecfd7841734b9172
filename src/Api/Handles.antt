-- ===== src/Api/Handles.antt =====
-- src/api: Sender and Receiver, with their builders, and the settings of the two tasks.
use thubo.Prelude.{ℕ, ◌-◌, ◌^◌, Option, some, none, Bool, true, false}
use thubo.Protocol.Qos
use thubo.Protocol.Qos.{Qos}
use thubo.Buffers.Bytes.{Bytes}
use thubo.Pipeline.Status
use thubo.Pipeline.Tx.Stage.{Outcome}
use thubo.Pipeline.Tx.In
use thubo.Pipeline.Tx.In.{PipelineTxIn}
use thubo.Sync.Time
use thubo.Sync.Time.{Duration}

abbrev pub from_secs : ℕ → Duration
from_secs n = record { secs = n; nanos = 0 }

-- `PushConfig` of the sending side
pub record PushConfig : Type 0 where
  pub qos : Qos
  pub timeout : Duration
  pub timeout_batch : Duration

-- `token` says whether the task is cancelled.
pub record Sender : Type 0 where
  pub inner : PipelineTxIn
  pub config : PushConfig
  pub token : Bool

unfoldable pub set_qos : Qos → Sender → Sender
set_qos q s = record s { config = record s.config { qos = q } }

unfoldable pub set_timeout : Duration → Sender → Sender
set_timeout d s = record s { config = record s.config { timeout = d } }

unfoldable pub set_timeout_progress : Duration → Sender → Sender
set_timeout_progress wait s = record s { config = record s.config { timeout_batch = wait } }

unfoldable pub is_congested : Sender → Bool
is_congested s = Status.any s.inner.status (Status.congested (Qos.priority s.config.qos))

unfoldable pub is_closed : Sender → Bool
is_closed s = false

-- `Sender::send`, where the lock is had or not
unfoldable pub send : Bool → Bytes → Sender → Outcome (Unit {0}) × Sender
send locked msg s =
    let (o, x) = In.push locked msg s.config.qos s.inner in (o, record s { inner = x })

-- `Sender::stop`
unfoldable pub stop : Sender → Sender
stop s = record s { inner = In.disable s.inner; token = true }

-- `SenderTaskInner`, words of atomic durations
pub record SenderTaskInner : Type 0 where
  pub write_timeout : ℕ
  pub keep_alive : ℕ
  pub max_batch_age : ℕ

-- The setters of the task panic for a duration that `AtomicDuration::store` refuses.
unfoldable pub set_write_timeout : Duration → SenderTaskInner → Option SenderTaskInner
set_write_timeout d t = elim (Time.store d) [
  | none ↦ none
  | some v ↦ some (record t { write_timeout = v })
]

unfoldable pub set_keep_alive : Duration → SenderTaskInner → Option SenderTaskInner
set_keep_alive d t = elim (Time.store d) [
  | none ↦ none
  | some v ↦ some (record t { keep_alive = v })
]

unfoldable pub set_max_batch_age : Duration → SenderTaskInner → Option SenderTaskInner
set_max_batch_age d t = elim (Time.store d) [
  | none ↦ none
  | some v ↦ some (record t { max_batch_age = v })
]

pub record SenderBuilder : Type 0 where
  pub qos : Qos
  pub capacity : ℕ
  pub batch_size : ℕ
  pub timeout : Duration
  pub timeout_progress : Duration
  pub timeout_batch : Duration

-- `sender`
unfoldable pub new_sender : SenderBuilder
unfolding Qos.default
new_sender = record {
  qos = Qos.default;
  capacity = 16;
  batch_size = 2 ^ 16 - 1;
  timeout = from_secs 60;
  timeout_progress = from_secs 10;
  timeout_batch = record { secs = 0; nanos = 100000 };
}

-- What `SenderBuilder::build` takes from the settings for the handle, and for the task, which panics for a
-- batch age that `AtomicDuration::new` refuses; the pipeline is `pipeline_tx(capacity, batch_size)`.
unfoldable pub build_config : SenderBuilder → PushConfig
build_config b = record { qos = b.qos; timeout = b.timeout; timeout_batch = b.timeout_progress }

unfoldable pub build_inner : SenderBuilder → Option SenderTaskInner
build_inner b = elim (Time.store b.timeout_batch) [
  | none ↦ none
  | some age ↦ some (record {
    write_timeout = Time.duration_to_u64 (from_secs 10);
    keep_alive = Time.duration_to_u64 (from_secs 3);
    max_batch_age = age;
  })
]

-- The handle of the receiving side, less its pipeline
pub record Receiver : Type 0 where
  pub timeout : Duration
  pub token : Bool

unfoldable pub receiver_timeout : Duration → Receiver → Receiver
receiver_timeout d r = record r { timeout = d }

unfoldable pub receiver_stop : Receiver → Receiver
receiver_stop r = record r { token = true }

unfoldable pub receiver_is_closed : Receiver → Bool
receiver_is_closed r = r.token

-- `ReceiverTaskInner`
pub record ReceiverTaskInner : Type 0 where
  pub timeout_read : ℕ
  pub timeout_drop : ℕ
  pub timeout_block : ℕ
  pub max_frag_size : ℕ

-- `PushConfig` of the receiving side
pub record ReceiverPushConfig : Type 0 where
  pub frag_max_size : ℕ
  pub timeout_drop : Duration
  pub timeout_block : Duration

unfoldable pub push_config : ReceiverTaskInner → ReceiverPushConfig
push_config t = record {
  frag_max_size = t.max_frag_size;
  timeout_drop = Time.load t.timeout_drop;
  timeout_block = Time.load t.timeout_block;
}

unfoldable pub set_read_timeout : Duration → ReceiverTaskInner → Option ReceiverTaskInner
set_read_timeout d t = elim (Time.store d) [
  | none ↦ none
  | some v ↦ some (record t { timeout_read = v })
]

-- `ReceiverTask::stop`: the token is cancelled, and reads that start from now on have no time.
unfoldable pub stop_task : ReceiverTaskInner → Bool → ReceiverTaskInner × Bool
stop_task t token = (record t { timeout_read = Time.duration_to_u64 (from_secs 0) }, true)

pub record ReceiverBuilder : Type 0 where
  pub capacity : ℕ
  pub timeout : Duration
  pub max_frag_size : ℕ

-- `receiver`, where `max` is `Duration::MAX`
unfoldable pub new_receiver : Duration → ReceiverBuilder
new_receiver max = record { capacity = 16; timeout = max; max_frag_size = 2 ^ 30 }

-- What `ReceiverBuilder::build` makes of the settings; the pipeline is `pipeline_rx(capacity)`.
unfoldable pub build_receiver : ReceiverBuilder → Receiver × ReceiverTaskInner
build_receiver b = (
  record { timeout = b.timeout; token = false },
  record {
    timeout_read = Time.duration_to_u64 (from_secs 10);
    timeout_drop = Time.duration_to_u64 (record { secs = 0; nanos = 500000000 });
    timeout_block = Time.duration_to_u64 (from_secs 60);
    max_frag_size = b.max_frag_size;
  },
)

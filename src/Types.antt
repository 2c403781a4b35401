-- ===== src/Types.antt =====
-- packages/jgc-node/src/types/index.ts: the records that several components share. Strings are their
-- UTF-8 bytes, and amounts and heights that cannot be negative are naturals.
use junctiongenerator.Base.{ℕ, List, Option}
use junctiongenerator.Base.Int.{ℤ}
use junctiongenerator.Base.Texts.{Text}
use junctiongenerator.Base.Maps.{TextMap}
use junctiongenerator.Canonical.{Number}

pub data ComputeTaskType : Type 0 where
  ai_inference ai_training fold_sim sci_compute commercial : ComputeTaskType

-- `tflopsWeight` comes from the peer: any JavaScript number.
pub record ComputeProof : Type 0 where
  pub task_commitment : Text
  pub proof_bytes : Text
  pub circuit_id : Text
  pub public_inputs : List Text
  pub tflops_weight : Number
  pub task_type : ComputeTaskType
  pub compute_started_at : Text

pub record MinerComputeContribution : Type 0 where
  pub miner_address : Text
  pub proof : ComputeProof
  pub signature : Text
  pub public_key : Text

pub record EpochState : Type 0 where
  pub epoch_start_height : ℕ
  pub epoch_block_index : ℕ
  pub total_epoch_tflops : ℕ
  pub miner_contributions : TextMap ℕ
  pub pending_reward_pool : ℕ
  pub epoch_start_time : ℕ

pub record OutPoint : Type 0 where
  pub txid : Text
  pub vout : ℕ

-- `witness`, which no code reads, is left out.
pub record TxInput : Type 0 where
  pub prev_out : OutPoint
  pub script_sig : Text
  pub sequence : ℕ

-- `value` is a bigint: it may be negative.
pub record TxOutput : Type 0 where
  pub value : ℤ
  pub script_pub_key : Text

pub record Transaction : Type 0 where
  pub version : ℕ
  pub inputs : List TxInput
  pub outputs : List TxOutput
  pub locktime : ℕ
  pub broker_task_ref : Option Text

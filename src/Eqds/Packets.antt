-- ===== src/Eqds/Packets.antt =====
-- sim/eqdspacket.h and sim/eqdspacket.cpp: the fields that the sinks and the sources of EQDS use. The
-- numbers of packets and of pulls have 64 bits and count up, and are taken not to wrap.
use frontier_htsim.Prelude.{ℕ, ◌+◌, ◌-◌, ◌*◌, ◌/◌, ◌^◌, Bool}

pub data DataType : Type 0 where
  data_pull data_spec data_rtx : DataType

pub record EqdsDataPacket : Type 0 where
  pub epsn : ℕ
  pub size : ℕ
  pub packet_type : DataType
  pub pull_target : ℕ
  pub path_id : ℕ
  pub ce : Bool
  pub ar : Bool
  pub is_header : Bool

pub record EqdsRtsPacket : Type 0 where
  pub epsn : ℕ
  pub size : ℕ
  pub pull_target : ℕ
  pub retx_backlog : ℕ
  pub path_id : ℕ
  pub ce : Bool
  pub ar : Bool

pub record EqdsAckPacket : Type 0 where
  pub cumulative_ack : ℕ
  pub ref_ack : ℕ
  pub ev : ℕ
  pub ecn_echo : Bool
  pub sack_bitmap : ℕ

pub record EqdsNackPacket : Type 0 where
  pub ref_epsn : ℕ
  pub ev : ℕ

pub record EqdsPullPacket : Type 0 where
  pub pullno : ℕ
  pub slow_pull : Bool

abbrev pub acksize : ℕ
acksize = 64

unfoldable pub quantize_floor : ℕ → ℕ
quantize_floor bytes = bytes / 2 ^ 9

unfoldable pub quantize_ceil : ℕ → ℕ
quantize_ceil bytes = (bytes + 512 - 1) / 512

unfoldable pub unquantize : ℕ → ℕ
unquantize credit_chunks = credit_chunks * 2 ^ 9

-- ===== src/Engine/Platform.antt =====
-- The filtering platform as src/WFPController/WindowsFilteringPlatform uses it: the calls that are made
-- of it, newest first, each with its status and the number that it gives (a handle or an identifier),
-- and what it answers, which may depend on all that was called before. What is the same in every call (the
-- names, the filters' flags, weight, action type and provider, the security descriptors) is left out.
use basic_windows_drivers.Base.{ℕ, List}

-- The identifiers of src/WFPController/wfpcontroller.identifiers.ixx that the engine uses, the layers,
-- and the null GUID.
pub data Guid : Type 0 where
  null_guid provider_key provider_context_key sublayer_key : Guid
  outbound_tcp_callout_key outbound_ipv4_callout_key : Guid
  inbound_icmp_error_callout_key outbound_icmp_error_callout_key : Guid
  layer_outbound_transport_v4 layer_outbound_ippacket_v4 : Guid
  layer_inbound_icmp_error_v4 layer_outbound_icmp_error_v4 : Guid

-- A condition of a filter: the IP protocol equals a number.
pub data Condition : Type 0 where
  ip_protocol_equals : ℕ → Condition

pub data Request : Type 0 where
  engine_open : Request
  engine_close : ℕ → Request
  -- The session, and the provider's key.
  provider_add : ℕ → Guid → Request
  -- The session, the context's key, its provider, and the process identifier in its buffer.
  provider_context_add : ℕ → Guid → Guid → ℕ → Request
  -- The session, the sublayer's key and its provider.
  sublayer_add : ℕ → Guid → Guid → Request
  -- The session, the callout's key, its provider, its layer, and whether it uses the context.
  callout_add : ℕ → Guid → Guid → Guid → ℕ → Request
  callout_delete_by_key : ℕ → Guid → Request
  -- The session, the layer, the sublayer, the callout, the context and the conditions.
  filter_add : ℕ → Guid → Guid → Guid → Guid → List Condition → Request

pub record Answer : Type 0 where
  pub status : ℕ
  pub number : ℕ

pub data Call : Type 0 where
  made : Request → Answer → Call

abbrev pub Platform : Type 0
Platform = List Call → Request → Answer

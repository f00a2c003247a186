-- ===== src/Engine/Operations.antt =====
-- The methods of Callout and WFPEngine, src/WFPController/WindowsFilteringPlatform.
use basic_windows_drivers.Base.{ℕ, true, false, ◌||◌, not, List, [], ◌∷◌, if◌then◌else◌, ◌==◌}
use basic_windows_drivers.Engine.Platform.{
  Guid, null_guid, provider_key, provider_context_key, sublayer_key, outbound_tcp_callout_key,
  outbound_ipv4_callout_key, inbound_icmp_error_callout_key, outbound_icmp_error_callout_key,
  layer_outbound_transport_v4, layer_outbound_ippacket_v4, layer_inbound_icmp_error_v4,
  layer_outbound_icmp_error_v4, Condition, ip_protocol_equals, Request, engine_open, provider_add,
  provider_context_add, sublayer_add, callout_add, callout_delete_by_key, filter_add, Platform,
}
use basic_windows_drivers.Engine.State.{
  Callout, Engine, World, Slot, outbound_ipv4, inbound_icmp_error, outbound_icmp_error,
  outbound_tcp, callout_of, set_callout,
}
use basic_windows_drivers.Engine.Handles.{itself, member, perform, assign}

-- std::invalid_argument, and WFPError with the platform's status.
pub data Exception : Type 0 where
  invalid_argument : Exception
  wfp_error : ℕ → Exception

pub data Outcome : Type 0 where
  returned : Outcome
  thrown : Exception → Outcome

-- The statements of a method that can throw, in order.
abbrev pub Action : Type 0
Action = World → World × Outcome

unfoldable pub and_then : World × Outcome → Action → World × Outcome
and_then (w, returned) next = next w
and_then (w, thrown e) next = (w, thrown e)

abbrev pub no_callout : Callout
no_callout = record {
  engine_handle = 0;
  callout_key = null_guid;
  provider_key = null_guid;
  applicable_layer_key = null_guid;
  callout_id = 0;
  flags = 0;
}

unfoldable pub new_engine : Engine
new_engine = record {
  engine_handle = 0;
  added_provider = false;
  added_sublayer = false;
  outbound_ipv4_filter_id = 0;
  inbound_icmp_error_filter_id = 0;
  outbound_icmp_error_filter_id = 0;
  outbound_transport_filter_id = 0;
  outbound_ipv4_callout = no_callout;
  inbound_icmp_error_callout = no_callout;
  outbound_icmp_error_callout = no_callout;
  outbound_tcp_callout = no_callout;
  context_id = 0;
}

-- FWPM_CALLOUT_FLAG_USES_PROVIDER_CONTEXT.
abbrev pub uses_provider_context : ℕ
uses_provider_context = 131072

module _ (platform : Platform) where
  -- Callout::Remove, of a member of the engine.
  unfoldable pub remove : Slot → World → World
  remove s w =
      let c = callout_of s w.engine in
      if c.callout_id == 0 || c.engine_handle == 0
      then w
      else let w = (perform platform (callout_delete_by_key c.engine_handle c.callout_key) w).0 in
        let w = record w { engine = set_callout s (record c { callout_id = 0 }) w.engine } in
        assign platform (member s) 0 w

  -- Callout::Move, onto a member, of a callout made from the engine's own handle. The other callout's
  -- handle is the engine's, which stays held.
  unfoldable pub move : Slot → Callout → World → World
  move s other w =
      let w = remove s w in
      let old = callout_of s w.engine in
      let w = record w {
        engine = set_callout s (record other { engine_handle = old.engine_handle }) w.engine;
      } in
      assign platform (member s) other.engine_handle w

  -- A call of the platform that throws unless its status is ERROR_SUCCESS, and what is kept of the
  -- number that it gives.
  unfoldable pub ask : Request → (ℕ → Engine → Engine) → Action
  ask request keep w =
      let (w, answer) = perform platform request w in
      if not (answer.status == 0)
      then (w, thrown (wfp_error answer.status))
      else (record w { engine = keep answer.number w.engine }, returned)

  -- Callout::Add, of a member of the engine.
  unfoldable pub add : Slot → Action
  add s w =
      let c = callout_of s w.engine in
      if c.engine_handle == 0
      then (w, thrown invalid_argument)
      else ask
          (callout_add c.engine_handle c.callout_key c.provider_key c.applicable_layer_key c.flags)
          (λ n e. set_callout s (record (callout_of s e) { callout_id = n }) e) w

  -- `member = Callout(m_engineHandle, …); member.Add();`, with the constructor's test.
  unfoldable pub add_new : Slot → Guid → Guid → Action
  add_new s key layer w =
      if w.engine.engine_handle == 0
      then (w, thrown invalid_argument)
      else let other : Callout = record {
        engine_handle = w.engine.engine_handle;
        callout_key = key;
        provider_key = provider_key;
        applicable_layer_key = layer;
        callout_id = 0;
        flags = uses_provider_context;
      } in
        add s (move s other w)

  unfoldable pub add_outbound_tcp_packet_callout : Action
  add_outbound_tcp_packet_callout =
      add_new outbound_tcp outbound_tcp_callout_key layer_outbound_transport_v4

  unfoldable pub add_outbound_ipv4_packet_callout : Action
  add_outbound_ipv4_packet_callout =
      add_new outbound_ipv4 outbound_ipv4_callout_key layer_outbound_ippacket_v4

  unfoldable pub add_inbound_icmp_error_callout : Action
  add_inbound_icmp_error_callout =
      add_new inbound_icmp_error inbound_icmp_error_callout_key layer_inbound_icmp_error_v4

  unfoldable pub add_outbound_icmp_error_callout : Action
  add_outbound_icmp_error_callout =
      add_new outbound_icmp_error outbound_icmp_error_callout_key layer_outbound_icmp_error_v4

  -- WFPEngine::AddCallouts. AddInboundIPv4PacketCallout, the last call, does nothing.
  unfoldable pub add_callouts : Action
  add_callouts w =
      if w.engine.engine_handle == 0
      then (w, thrown invalid_argument)
      else and_then
          (and_then (and_then (add_outbound_tcp_packet_callout w) add_outbound_ipv4_packet_callout)
            add_inbound_icmp_error_callout)
          add_outbound_icmp_error_callout

  -- WFPEngine::OpenFilterEngine.
  unfoldable pub open_filter_engine : Action
  open_filter_engine w =
      let (w, answer) = perform platform engine_open w in
      if not (answer.status == 0)
      then (w, thrown (wfp_error answer.status))
      else (assign platform itself answer.number w, returned)

  unfoldable pub register_provider : Action
  register_provider w =
      if w.engine.engine_handle == 0
      then (w, thrown invalid_argument)
      else ask (provider_add w.engine.engine_handle provider_key)
          (λ n e. record e { added_provider = true }) w

  -- WFPEngine::AddContext, which does not test the handle.
  unfoldable pub add_context : ℕ → Action
  add_context current_process_id w =
      ask
        (provider_context_add w.engine.engine_handle provider_context_key provider_key
          current_process_id)
        (λ n e. record e { context_id = n }) w

  unfoldable pub add_sublayer : Action
  add_sublayer w =
      if w.engine.engine_handle == 0
      then (w, thrown invalid_argument)
      else ask (sublayer_add w.engine.engine_handle sublayer_key provider_key)
          (λ n e. record e { added_sublayer = true }) w

  -- WFPEngine::AddFilter, for the member in which the filter's identifier is kept.
  unfoldable pub add_filter : Guid → Guid → Guid → List Condition → (ℕ → Engine → Engine) → Action
  add_filter layer sublayer callout conditions keep w =
      if w.engine.engine_handle == 0
      then (w, thrown invalid_argument)
      else ask
          (filter_add w.engine.engine_handle layer sublayer callout provider_context_key conditions)
          keep w

  unfoldable pub add_filters : Action
  add_filters w =
      if w.engine.engine_handle == 0
      then (w, thrown invalid_argument)
      else and_then
          (and_then
            (and_then
              (add_filter layer_outbound_ippacket_v4 sublayer_key outbound_ipv4_callout_key []
                (λ n e. record e { outbound_ipv4_filter_id = n }) w)
              (add_filter layer_inbound_icmp_error_v4 sublayer_key inbound_icmp_error_callout_key []
                (λ n e. record e { inbound_icmp_error_filter_id = n })))
            (add_filter layer_outbound_icmp_error_v4 sublayer_key outbound_icmp_error_callout_key []
              (λ n e. record e { outbound_icmp_error_filter_id = n })))
          (add_filter layer_outbound_transport_v4 sublayer_key outbound_tcp_callout_key
            (ip_protocol_equals 6 ∷ []) (λ n e. record e { outbound_transport_filter_id = n }))

  -- WFPEngine::Close.
  unfoldable pub close : World → World
  close w =
      if w.engine.engine_handle == 0
      then w
      else assign platform itself 0 (
          remove outbound_tcp
            (remove outbound_icmp_error (remove inbound_icmp_error (remove outbound_ipv4 w))))

  -- ~Callout, of a member: Remove, and the end of its pointer.
  unfoldable pub destroy_callout : Slot → World → World
  destroy_callout s w = assign platform (member s) 0 (remove s w)

  -- ~WFPEngine: Close, and then the members in the order opposite to their declaration.
  unfoldable pub destroy : World → World
  destroy w = assign platform itself 0 (
      destroy_callout outbound_ipv4 (
        destroy_callout inbound_icmp_error
          (destroy_callout outbound_icmp_error (destroy_callout outbound_tcp (close w)))))
